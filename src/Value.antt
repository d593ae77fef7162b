-- ===== src/Value.antt =====
-- src/value.c: PHP values as values of libhandlebars, and back.
pub mod FromZval
pub mod Intern
pub mod Handlers
pub mod Strtol
pub mod Find
pub mod ToZval
pub mod Iterator
pub mod SendOptions
pub mod Call
use php_handlebars.Base.{ℕ, Bool, Text}
use php_handlebars.Zend.{ℤ, Zval}

-- A flag that is computed when it is first asked for: -1, or the answer.
pub data Memo : Type 0 where
  unknown : Memo
  known : Bool → Memo

-- `struct handlebars_zval`: `intern` and the two flags kept beside it.
pub record HandlebarsZval : Type 0 where
  pub callable : Memo
  pub int_array : Memo
  pub intern : Zval

-- A `handlebars_value` by its type tag. Arrays and maps are libhandlebars's own; `user` is a PHP
-- value, and `safe` marks a string with HANDLEBARS_VALUE_FLAG_SAFE_STRING.
mutual
  pub data Value : Type 0 where
    null true_value false_value : Value
    float : ℕ → Value
    integer : ℤ → Value
    string safe : Text → Value
    array : Items → Value
    map : Fields → Value
    user : HandlebarsZval → Value
    closure ptr helper : Value

  pub data Items : Type 0 where
    no_items : Items
    item : Value → Items → Items

  pub data Fields : Type 0 where
    no_fields : Fields
    field : Text → Value → Fields → Fields
