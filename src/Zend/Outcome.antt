-- ===== src/Zend/Outcome.antt =====
-- How a call of the extension ends: with a value, with a PHP exception, or with the process
-- aborted, where the source runs into `abort()` or a failed `assert`.
use php_handlebars.Base.{Bool, Text, if◌then◌else◌}
use php_handlebars.Zend.{ℤ}

-- The classes of the exceptions that the extension throws.
pub data ExceptionClass : Type 0 where
  compile_exception runtime_exception invalid_binary_string_exception zend_ce_exception :
      ExceptionClass

pub record Exception : Type 0 where
  pub class_entry : ExceptionClass
  pub message : Text
  pub code : ℤ

pub data Outcome {ℓ} (A : Type ℓ) : Type ℓ where
  ok : A → Outcome A
  throw : Exception → Outcome A
  aborted : Outcome A

infixl 5 ◌>>=◌ ◌>>◌
abbrev pub ◌>>=◌ {ℓ κ} : {A : Type ℓ} {B : Type κ} → Outcome A → (A → Outcome B) → Outcome B
ok a >>= f = f a
throw e >>= f = throw e
aborted >>= f = aborted

abbrev pub ◌>>◌ {ℓ} : {B : Type ℓ} → Outcome (Unit {0}) → Outcome B → Outcome B
m >> k = m >>= λ _. k

-- `assert(0)`: it aborts where assertions are compiled in, and is passed over where they are not.
abbrev pub assert_zero : Bool → Outcome (Unit {0})
assert_zero asserts = if asserts then aborted else ok tt

-- `zend_throw_exception` with code 0
abbrev pub throw_exception {ℓ} : {A : Type ℓ} → ExceptionClass → Text → Outcome A
throw_exception c m = throw (record { class_entry = c; message = m; code = ℤ.pos 0 })
