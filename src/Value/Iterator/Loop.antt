-- ===== src/Value/Iterator/Loop.antt =====
-- What a loop over a PHP array sees through the array iterator of src/value.c.
use php_handlebars.Base.{
  ℕ, zero, suc, ◌+◌, ◌<◌, ◌≡◌, refl, true, false, Option, none, some, List, [], ◌∷◌, Text, arith,
  inl, inr, ◌⊎◌,
}
use php_handlebars.Zend.{Key, Zval, Buckets, index, name, end, bucket}
use php_handlebars.Zend.Hash.{num_elements}
use php_handlebars.Libhandlebars.{LibResult, LibError, returns, raises}
use php_handlebars.Value.{Value}
use php_handlebars.Value.FromZval.{from_zval}
use php_handlebars.Value.Iterator.{
  ObjectIterator, Iterator, over_array, iterator_array, set_key, finished, step,
}

-- What one round of the loop sees.
pub record Visit : Type 0 where
  pub key : Option Text
  pub position : ℕ
  pub value : Value

abbrev pub then_visit : Visit → LibResult (List Visit) → LibResult (List Visit)
then_visit v (returns r) = returns (v ∷ r)
then_visit v (raises x) = raises x

abbrev pub key_visit : Key → Value → Visit
key_visit (name s) v = record { key = some s; position = 0; value = v }
key_visit (index n) v = record { key = none; position = n; value = v }

-- The entries in order, each converted over the value of the one before it.
abbrev pub carried : Buckets → Value → LibResult (List Visit)
carried end cur = returns []
carried (bucket k entry b) cur = elim (from_zval entry cur) [
  | returns v ↦ then_visit (key_visit k v) (carried b v)
  | raises x ↦ raises x
]

result_cases :
    (r : LibResult Value) → ((v : Value) × (r ≡ returns v)) ⊎ ((x : LibError) × (r ≡ raises x))
result_cases (returns v) = inl (v, refl)
result_cases (raises x) = inr (x, refl)

module _ {S : Type 0} (z : ObjectIterator S) where
  abbrev visit : Iterator S → Visit
  visit it = record { key = it.key; position = it.position; value = it.cur }

  -- `do ... while (it->next(it))`, from a position where the next element is still to be fetched.
  pub loop : ℕ → Iterator S → LibResult (List Visit)
  loop zero it = returns []
  loop (suc fuel) it = elim (step z it) [
    | returns (true, it') ↦ then_visit (visit it') (loop fuel it')
    | returns (false, it') ↦ returns []
    | raises x ↦ raises x
  ]

  abbrev advanced : Key → Buckets → Value → Iterator S → Iterator S
  advanced k b v it = record (set_key z k it) { cur = v; next = over_array b }

  visit-advanced :
      (k : Key) (b : Buckets) (v : Value) (it : Iterator S)
      → visit (advanced k b v it) ≡ key_visit k v
  unfolding set_key
  visit-advanced (name s) b v it = refl
  visit-advanced (index n) b v it = refl

  step-bucket :
      (k : Key) (entry : Zval) (b : Buckets) (it : Iterator S) (v : Value)
      → it.next ≡ over_array (bucket k entry b)
      → from_zval entry it.cur ≡ returns v
      → step z it ≡ returns (true, advanced k b v it)
  unfolding step iterator_array
  step-bucket k entry b it v n e = ground arith

  step-raises :
      (k : Key) (entry : Zval) (b : Buckets) (it : Iterator S) (x : LibError)
      → it.next ≡ over_array (bucket k entry b)
      → from_zval entry it.cur ≡ raises x
      → step z it ≡ raises x
  unfolding step iterator_array
  step-raises k entry b it x n e = ground arith

  step-end :
      (it : Iterator S) → it.next ≡ over_array end → step z it ≡ returns (false, finished z it)
  unfolding step iterator_array
  step-end it n = ground arith

  -- With fuel for each entry and one round more the loop ends by itself: it sees every entry of the
  -- array once and in order, under its key, converted over the value of the entry before it.
  pub loop-carried :
      (b : Buckets) (fuel : ℕ) (it : Iterator S)
      → num_elements b < fuel
      → it.next ≡ over_array b
      → loop fuel it ≡ carried b it.cur
  unfolding loop
  loop-carried b zero it h n = absurd (omega arith)
  loop-carried end (suc fuel) it h n = ground (arith, step-end it n)
  loop-carried (bucket k entry b) (suc fuel) it h n = elim (result_cases (from_zval entry it.cur)) [
    | inl (v, e) ↦ ground (
      arith,
      step-bucket k entry b it v n e,
      loop-carried b fuel (advanced k b v it),
      visit-advanced k b v it,
    )
    | inr (x, e) ↦ ground (arith, step-raises k entry b it x n e)
  ]

  -- A null entry is seen with the value of the entry before it, and not as null.
  pub loop-null :
      (k j : Key) (entry : Zval) (b : Buckets) (v : Value) (fuel : ℕ) (it : Iterator S)
      → from_zval entry it.cur ≡ returns v
      → num_elements b + 2 < fuel
      → it.next ≡ over_array (bucket k entry (bucket j Zval.null b))
      → loop fuel it ≡ then_visit (key_visit k v) (then_visit (key_visit j v) (carried b v))
  unfolding from_zval
  loop-null k j entry b v fuel it e h n =
      ground (arith, loop-carried (bucket k entry (bucket j Zval.null b)) fuel it)
