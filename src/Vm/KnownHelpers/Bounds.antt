-- ===== src/Vm/KnownHelpers/Bounds.antt =====
-- How the arrays of names that src/vm.c hands to the compiler fit into what it allocates for them: the
-- one of the options always does, and that of the helpers if both iterations over them give equally many.
use php_handlebars.Base.{
  suc, ◌+◌, ◌≤◌, ◌≡◌, refl, ap, Option, none, some, List, [], ◌∷◌, ◌++◌, Text, map, length,
  length-append, arith,
}
use php_handlebars.Zend.{Key, Zval, Buckets, array, index, name, end, bucket}
use php_handlebars.Zend.Hash.{num_elements}
use php_handlebars.Zend.Outcome.{Outcome, ok, throw, aborted, ◌>>=◌}
use php_handlebars.Utils.CString.{c_string}
use php_handlebars.Vm.KnownHelpers.{
  StringArray, known_helper, known_helper_names, known_helpers_from_zval, copy_keys,
  fetch_known_helpers,
}

-- The strings and the terminating NULL take no more than the slots allocated.
abbrev pub Fits : StringArray → Type 0
Fits a = length a.strings + 1 ≤ a.slots

length-known_helper : (k : Key) (v : Zval) → length (known_helper k v) ≤ 1
unfolding known_helper
length-known_helper (index n) v = ground arith
length-known_helper (name t) v = ground arith

length-known_helper_names : (b : Buckets) → length (known_helper_names b) ≤ num_elements b
unfolding known_helper_names
length-known_helper_names end = omega arith
length-known_helper_names (bucket k v b) = omega (
  arith,
  length-known_helper k v,
  length-known_helper_names b,
  length-append (known_helper k v) (known_helper_names b),
)

-- The names read from an array of the options, and the NULL behind them, fit into the array that is
-- allocated for them.
pub known_helpers_from_zval-Fits :
    (v : Zval) (a : StringArray) → known_helpers_from_zval v ≡ some a → Fits a
unfolding known_helpers_from_zval
known_helpers_from_zval-Fits (array b) a h = ground (arith, length-known_helper_names b)
known_helpers_from_zval-Fits v a h = ground arith

length-copy_keys :
    (ks : List (Option Text)) (names : List Text)
    → copy_keys ks ≡ ok names
    → length names ≡ length ks
unfolding copy_keys
length-copy_keys [] names h = ground arith
length-copy_keys (none ∷ ks) names h = cc
length-copy_keys (some k ∷ ks) names h = copied (copy_keys ks) (length-copy_keys ks) h
  where
    copied :
        (o : Outcome (List Text))
        → ((r : List Text) → o ≡ ok r → length r ≡ length ks)
        → (o >>= λ r. ok (c_string k ∷ r)) ≡ ok names
        → length names ≡ suc (length ks)
    copied (ok r) ih q = ground (arith, ih r refl)
    copied (throw x) e q = cc
    copied aborted e q = cc

length-map_text : (f : Text → Text) (ts : List Text) → length (map f ts) ≡ length ts
length-map_text f [] = refl
length-map_text f (t ∷ ts) = ap suc (length-map_text f ts)

-- If both iterations over the helpers give the same number of keys, the built-in names, the keys and
-- the NULL behind them fill the array that is allocated for them exactly.
pub fetch_known_helpers_exact :
    (orig : List Text) (counted copied : List (Option Text)) (a : StringArray)
    → length counted ≡ length copied
    → fetch_known_helpers (some orig) counted copied ≡ ok a
    → length a.strings + 1 ≡ a.slots
unfolding fetch_known_helpers
fetch_known_helpers_exact orig counted copied a same h = made (copy_keys copied) refl h
  where
    made :
        (o : Outcome (List Text))
        → copy_keys copied ≡ o
        → (o >>= λ names. ok (record {
          slots = length orig + length counted + 1;
          strings = map c_string orig ++ names;
        }))
          ≡ ok a
        → length a.strings + 1 ≡ a.slots
    made (ok r) e q = ground (
      arith,
      length-copy_keys copied r e,
      length-append (map c_string orig) r,
      length-map_text c_string orig,
    )
    made (throw x) e q = cc
    made aborted e q = cc
