-- ===== src/Zend/Hash.antt =====
-- The hash table calls that the extension makes on PHP arrays: an ordered map whose keys are
-- unsigned integers or strings, in which a decimal string is an integer key where PHP says so.
use php_handlebars.Base.{
  ℕ, suc, ◌+◌, ◌*◌, ◌-◌, ◌^◌, ◌≡◌, refl, Bool, false, ◌&&◌, Option, none, some, List, [], ◌∷◌, Text,
  text_eq, ◌==◌, leb, max, arith, if◌then◌else◌, text_eq_iff,
}
use php_handlebars.Zend.{Key, Zval, Buckets, index, name, end, bucket}

-- `ZEND_IS_DIGIT`
abbrev pub is_digit : ℕ → Bool
is_digit c = leb b'0' c && leb c b'9'

abbrev pub decimal : ℕ → Text → Option ℕ
decimal n [] = some n
decimal n (c ∷ t) = let rest = decimal (n * 10 + (c - b'0')) t in if is_digit c then rest else none

-- The digits of a canonical decimal: at least one, and no zero in front of others.
abbrev pub canonical : Text → Option ℕ
canonical [] = none
canonical (c ∷ []) = decimal 0 (c ∷ [])
canonical (c ∷ d ∷ t) = if c == b'0' then none else decimal 0 (c ∷ d ∷ t)

abbrev pub at_most : ℕ → Option ℕ → Option ℕ
at_most bound none = none
at_most bound (some n) = if leb n bound then some n else none

-- The magnitude of a negative canonical decimal; "-0" is a string.
abbrev pub negative_key : Option ℕ → Option ℕ
negative_key none = none
negative_key (some n) = if n == 0 then none else if leb n (2 ^ 63) then some (2 ^ 64 - n) else none

-- `ZEND_HANDLE_NUMERIC_STR`: the integer key that PHP makes of a decimal string, as a `zend_ulong`.
abbrev pub numeric_key : Text → Option ℕ
numeric_key [] = none
numeric_key (c ∷ t) =
    if c == b'-' then negative_key (canonical t) else at_most (2 ^ 63 - 1) (canonical (c ∷ t))

-- The key under which the `symtable` calls file a string.
abbrev pub symtable_key : Text → Key
symtable_key t = elim (numeric_key t) [ none ↦ name t | some n ↦ index n ]

abbrev pub key_eq : Key → Key → Bool
key_eq (index a) (index b) = a == b
key_eq (index a) (name t) = false
key_eq (name s) (index b) = false
key_eq (name s) (name t) = text_eq s t

-- `zend_hash_find` and `zend_hash_index_find`
abbrev pub find : Key → Buckets → Option Zval
find k end = none
find k (bucket j v b) = if key_eq j k then some v else find k b

-- `zend_hash_update`: in place, or at the end
abbrev pub update : Key → Zval → Buckets → Buckets
update k v end = bucket k v end
update k v (bucket j w b) = if key_eq j k then bucket k v b else bucket j w (update k v b)

-- `add_assoc_zval_ex`
abbrev pub add_assoc : Text → Zval → Buckets → Buckets
add_assoc t v b = update (symtable_key t) v b

-- `nNextFreeElement`, for an array with no negative key from which nothing was deleted
abbrev pub next_index : Buckets → ℕ
next_index end = 0
next_index (bucket (index n) v b) = max (suc n) (next_index b)
next_index (bucket (name t) v b) = next_index b

-- `add_next_index_zval`
abbrev pub add_next : Zval → Buckets → Buckets
add_next v b = update (index (next_index b)) v b

-- `zend_hash_num_elements`
abbrev pub num_elements : Buckets → ℕ
num_elements end = 0
num_elements (bucket k v b) = suc (num_elements b)

abbrev pub keys : Buckets → List Key
keys end = []
keys (bucket k v b) = k ∷ keys b

abbrev pub values : Buckets → List Zval
values end = []
values (bucket k v b) = v ∷ values b

pub key_eq_iff_name : (s t : Text) → key_eq (name s) (name t) ≡ text_eq s t
key_eq_iff_name s t = refl

pub find-update_name :
    (k j : Text) (v : Zval) (b : Buckets)
    → find (name j) (update (name k) v b) ≡ (if text_eq k j then some v else find (name j) b)
find-update_name k j v end = refl
find-update_name k j v (bucket (index n) w b) = find-update_name k j v b
find-update_name k j v (bucket (name i) w b) =
    ground (arith, text_eq_iff k j, text_eq_iff i k, text_eq_iff i j, find-update_name k j v b)
