-- ===== src/Value/ToZval/RoundTrip.antt =====
-- The conversions of src/value.c in both directions.
use php_handlebars.Base.{
  ℕ, suc, ◌+◌, ◌≡◌, refl, sym, ap, ◌∙◌, append-nil, append_assoc, arith, max, List, [], ◌∷◌, ◌++◌,
}
use php_handlebars.Zend.{
  Zval, Buckets, index, name, end, bucket, undef, null, is_true, is_false, double, long, string,
  array, object, resource, reference, indirect,
}
use php_handlebars.Zend.Hash.{next_index, add_next, update, keys, values, num_elements}
use php_handlebars.Libhandlebars.{returns}
use php_handlebars.Utils.IntArray.Keys.{count_from}
use php_handlebars.Value.{Value, Items, no_items, item}
use php_handlebars.Value.FromZval.{from_zval}
use php_handlebars.Value.ToZval.{to_zval, array_to_zval}

-- An undefined value comes back as null.
abbrev pub defined : Zval → Zval
defined undef = null
defined v = v

-- A PHP value that is converted over null, and back, is the same again; an undefined one is null.
pub to_zval-from_zval :
    (v : Zval) (x : Value) → from_zval v Value.null ≡ returns x → to_zval x ≡ defined v
unfolding from_zval to_zval
to_zval-from_zval undef x h = ground arith
to_zval-from_zval null x h = ground arith
to_zval-from_zval is_true x h = ground arith
to_zval-from_zval is_false x h = ground arith
to_zval-from_zval (double d) x h = ground arith
to_zval-from_zval (long n) x h = ground arith
to_zval-from_zval (string s) x h = ground arith
to_zval-from_zval (object o) x h = ground arith
to_zval-from_zval (array b) x h = ground arith
to_zval-from_zval (resource r) x h = ground arith
to_zval-from_zval (reference v) x h = ground arith
to_zval-from_zval (indirect v) x h = ground arith

abbrev pub zvals : Items → List Zval
unfolding to_zval
zvals no_items = []
zvals (item child xs) = to_zval child ∷ zvals xs

next_index-count :
    (b : Buckets) (i : ℕ)
    → keys b ≡ count_from i (num_elements b)
    → max i (next_index b) ≡ i + num_elements b
next_index-count end i h = omega arith
next_index-count (bucket (name s) v b) i h = ground arith
next_index-count (bucket (index n) v b) i h = ground (arith, next_index-count b (suc i))

keys-update :
    (b : Buckets) (i : ℕ) (v : Zval)
    → keys b ≡ count_from i (num_elements b)
    → keys (update (index (i + num_elements b)) v b) ≡ count_from i (suc (num_elements b))
keys-update end i v h = ground arith
keys-update (bucket (name s) w b) i v h = ground arith
keys-update (bucket (index n) w b) i v h = ground (arith, keys-update b (suc i) v)

num_elements-update :
    (b : Buckets) (i : ℕ) (v : Zval)
    → keys b ≡ count_from i (num_elements b)
    → num_elements (update (index (i + num_elements b)) v b) ≡ suc (num_elements b)
num_elements-update end i v h = ground arith
num_elements-update (bucket (name s) w b) i v h = ground arith
num_elements-update (bucket (index n) w b) i v h = ground (arith, num_elements-update b (suc i) v)

values-update :
    (b : Buckets) (i : ℕ) (v : Zval)
    → keys b ≡ count_from i (num_elements b)
    → values (update (index (i + num_elements b)) v b) ≡ values b ++ v ∷ []
values-update end i v h = ground arith
values-update (bucket (name s) w b) i v h = ground arith
values-update (bucket (index n) w b) i v h = ground (arith, values-update b (suc i) v)

-- The array is a list: its keys count up from 0.
abbrev IsList : Buckets → Type 0
IsList b = keys b ≡ count_from 0 (num_elements b)

add_next-IsList :
    (b : Buckets) (v : Zval)
    → IsList b
    → IsList (add_next v b) × (values (add_next v b) ≡ values b ++ v ∷ [])
add_next-IsList b v h =
    let last : next_index b ≡ 0 + num_elements b = ground (arith, next_index-count b 0 h) in
    rw last (rw (num_elements-update b 0 v h) (keys-update b 0 v h), values-update b 0 v h)

array_to_zval-IsList :
    (xs : Items) (b : Buckets)
    → IsList b
    → IsList (array_to_zval xs b) × (values (array_to_zval xs b) ≡ values b ++ zvals xs)
unfolding to_zval
array_to_zval-IsList no_items b h = (h, sym (append-nil (values b)))
array_to_zval-IsList (item child xs) b h =
    let (list, last) = add_next-IsList b (to_zval child) h in
    let (whole, all) = array_to_zval-IsList xs (add_next (to_zval child) b) list in
    (
      whole,
      all ∙ ap (λ x. x ++ zvals xs) last ∙ append_assoc (values b) (to_zval child ∷ []) (zvals xs),
    )

-- An array of libhandlebars becomes a PHP array of its converted elements in their order, under the
-- keys 0, 1, 2, ...
pub to_zval-array :
    (xs : Items)
    → (b : Buckets) × (to_zval (Value.array xs) ≡ array b)
      × (keys b ≡ count_from 0 (num_elements b))
      × (values b ≡ zvals xs)
unfolding to_zval
to_zval-array xs =
    let (whole, all) = array_to_zval-IsList xs end refl in (array_to_zval xs end, refl, whole, all)
