-- ===== src/Utils/IntArray/Keys.antt =====
-- `isIntArray` of src/utils.c decides that the keys of an array are 0, 1, 2, ... in this order.
use php_handlebars.Base.{
  ℕ, zero, suc, ◌+◌, ◌^◌, ◌%◌, ◌<◌, ◌≡◌, refl, ◌↔◌, true, List, [], ◌∷◌, arith,
}
use php_handlebars.Zend.{Key, Buckets, array, index, name, end, bucket}
use php_handlebars.Zend.Hash.{num_elements, keys}
use php_handlebars.Utils.IntArray.{int_keys_from, is_int_array}

-- `n` keys that count up from `i`.
abbrev pub count_from : ℕ → ℕ → List Key
count_from i zero = []
count_from i (suc n) = index i ∷ count_from (suc i) n

int_keys_from_sound :
    (b : Buckets) (i : ℕ)
    → i + num_elements b < 2 ^ 64
    → int_keys_from i b ≡ true
    → keys b ≡ count_from i (num_elements b)
unfolding int_keys_from
int_keys_from_sound end i h t = refl
int_keys_from_sound (bucket (name s) v b) i h t = cc
int_keys_from_sound (bucket (index n) v b) i h t =
    ground (arith, int_keys_from_sound b (suc i), int_keys_from_sound b ((i + 1) % 2 ^ 64))

int_keys_from_complete :
    (b : Buckets) (i : ℕ)
    → i + num_elements b < 2 ^ 64
    → keys b ≡ count_from i (num_elements b)
    → int_keys_from i b ≡ true
unfolding int_keys_from
int_keys_from_complete end i h t = refl
int_keys_from_complete (bucket (name s) v b) i h t = ground arith
int_keys_from_complete (bucket (index n) v b) i h t =
    ground (arith, int_keys_from_complete b (suc i), int_keys_from_complete b ((i + 1) % 2 ^ 64))

-- Of an array with fewer than 2 ^ 64 entries: it is an int array exactly when its keys are
-- 0, 1, 2, ... in the order of iteration.
pub is_int_array_iff :
    (b : Buckets)
    → num_elements b < 2 ^ 64
    → (is_int_array (array b) ≡ true) ↔ (keys b ≡ count_from 0 (num_elements b))
unfolding is_int_array
is_int_array_iff end h = (λ _. refl, λ _. refl)
is_int_array_iff (bucket k v b) h = (
  λ t. int_keys_from_sound (bucket k v b) 0 (omega arith) (ground arith),
  λ t. ground (arith, int_keys_from_complete (bucket k v b) 0 (omega arith) t),
)
