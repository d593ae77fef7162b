-- ===== src/Zend.antt =====
-- PHP values as the extension receives them: a `zval` with its type tag, and an array as the
-- ordered map that PHP arrays are, one bucket to an entry in the order of iteration.
pub mod Hash
pub mod Outcome
pub mod Engine
pub mod Tree
use php_handlebars.Base.{ℕ, Bool, true, false, Text}

-- A `zend_long`: `negsuc n` is -(n + 1).
pub data ℤ : Type 0 where
  pos : ℕ → ℤ
  negsuc : ℕ → ℤ

-- A hash key: a `zend_ulong`, or a string.
pub data Key : Type 0 where
  index : ℕ → Key
  name : Text → Key

-- A double is given by its bits, an object and a resource by their handles.
mutual
  pub data Zval : Type 0 where
    undef null is_false is_true : Zval
    long : ℤ → Zval
    double : ℕ → Zval
    string : Text → Zval
    array : Buckets → Zval
    object : ℕ → Zval
    resource : ℕ → Zval
    reference indirect : Zval → Zval

  pub data Buckets : Type 0 where
    end : Buckets
    bucket : Key → Zval → Buckets → Buckets

-- `ZVAL_BOOL`
abbrev pub zval_bool : Bool → Zval
zval_bool true = is_true
zval_bool false = is_false
