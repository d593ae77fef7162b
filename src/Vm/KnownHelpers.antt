-- ===== src/Vm/KnownHelpers.antt =====
-- `php_handlebars_compiler_known_helpers_from_zval` and `php_handlebars_fetch_known_helpers` of
-- src/vm.c.
pub mod Bounds
use php_handlebars.Base.{
  ℕ, ◌+◌, Bool, Option, none, some, List, [], ◌∷◌, ◌++◌, Text, ◌==◌, map, length, if◌then◌else◌,
}
use php_handlebars.Zend.{Key, Zval, Buckets, array, string, index, name, end, bucket}
use php_handlebars.Zend.Hash.{num_elements}
use php_handlebars.Zend.Outcome.{Outcome, ok, aborted, ◌>>=◌}
use php_handlebars.Utils.CString.{c_string}

-- An array of C strings, by the number of pointers allocated for it and the strings in front of the
-- terminating NULL.
pub record StringArray : Type 0 where
  pub slots : ℕ
  pub strings : List Text

-- One round of the loop: a string value, else a string key, else nothing.
unfoldable pub known_helper : Key → Zval → List Text
known_helper k (string s) = c_string s ∷ []
known_helper (name key) v = c_string key ∷ []
known_helper (index n) v = []

unfoldable pub known_helper_names : Buckets → List Text
unfolding known_helper
known_helper_names end = []
known_helper_names (bucket k v b) = known_helper k v ++ known_helper_names b

-- none is NULL
unfoldable pub known_helpers_from_zval : Zval → Option StringArray
unfolding known_helper_names
known_helpers_from_zval (array b) =
    if num_elements b == 0
    then none
    else some (record { slots = num_elements b + 1; strings = known_helper_names b })
known_helpers_from_zval _ = none

-- `HBS_STR_STRL(key)` reads through a key that is NULL
unfoldable pub copy_keys : List (Option Text) → Outcome (List Text)
copy_keys [] = ok []
copy_keys (none ∷ r) = aborted
copy_keys (some key ∷ r) = do names ← copy_keys r; ok (c_string key ∷ names)

-- `counted` and `copied` are the keys that the two iterations over the helpers give, and `orig` is
-- what `handlebars_compiler_get_known_helpers` returns.
unfoldable pub fetch_known_helpers :
    Option (List Text) → List (Option Text) → List (Option Text) → Outcome StringArray
unfolding copy_keys
fetch_known_helpers none counted copied = aborted
fetch_known_helpers (some orig) counted copied = do
  names ← copy_keys copied
  ok (record { slots = length orig + length counted + 1; strings = map c_string orig ++ names })
