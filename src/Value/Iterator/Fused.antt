-- ===== src/Value/Iterator/Fused.antt =====
-- How the object iterator of src/value.c ends.
use php_handlebars.Base.{◌≡◌, true, false, arith}
use php_handlebars.Zend.{Buckets, end, bucket}
use php_handlebars.Libhandlebars.{returns}
use php_handlebars.Value.Iterator.{
  ObjectIterator, Iterator, over_nothing, iterator_array, iterator_object, object_data, object_key,
  step,
}

module _ {S : Type 0} (z : ObjectIterator S) where
  object_key-true :
      (it it' : Iterator S) → object_key z it ≡ (true, it') → z.exception it'.engine ≡ false
  unfolding object_key
  object_key-true it it' h = ground arith

  object_key-false :
      (it it' : Iterator S) → object_key z it ≡ (false, it') → it'.next ≡ over_nothing
  unfolding object_key
  object_key-false it it' h = ground arith

  object_data-true :
      (it it' : Iterator S)
      → object_data z it ≡ returns (true, it')
      → z.exception it'.engine ≡ false
  unfolding object_data
  object_data-true it it' h = grind (arith, object_key-true)

  object_data-false :
      (it it' : Iterator S) → object_data z it ≡ returns (false, it') → it'.next ≡ over_nothing
  unfolding object_data
  object_data-false it it' h = grind (arith, object_key-false)

  -- When an object's iterator brings an element, no PHP exception is pending: an exception in any
  -- function of the object ends the loop.
  pub iterator_object-true :
      (it it' : Iterator S)
      → iterator_object z it ≡ returns (true, it')
      → z.exception it'.engine ≡ false
  unfolding iterator_object
  iterator_object-true it it' h = grind (arith, object_data-true)

  iterator_object-false :
      (it it' : Iterator S) → iterator_object z it ≡ returns (false, it') → it'.next ≡ over_nothing
  unfolding iterator_object
  iterator_object-false it it' h = grind (arith, object_data-false)

  iterator_array-false :
      (b : Buckets) (it it' : Iterator S)
      → iterator_array z b it ≡ returns (false, it')
      → it'.next ≡ over_nothing
  unfolding iterator_array
  iterator_array-false end it it' h = ground arith
  iterator_array-false (bucket k entry b) it it' h = ground arith

  step-false : (it it' : Iterator S) → step z it ≡ returns (false, it') → it'.next ≡ over_nothing
  unfolding step
  step-false it it' h = grind (arith, iterator_object-false, iterator_array-false)

  step-nothing : (it : Iterator S) → it.next ≡ over_nothing → step z it ≡ returns (false, it)
  unfolding step
  step-nothing it h = ground arith

  -- Once a step of an iterator, over an array or an object, has said that there is no element left,
  -- every later step says so too and changes nothing.
  pub step-fused :
      (it it' : Iterator S) → step z it ≡ returns (false, it') → step z it' ≡ returns (false, it')
  step-fused it it' h = step-nothing it' (step-false it it' h)
