-- ===== src/Value/Call.antt =====
-- `handlebars_std_zval_call` of src/value.c: a PHP value called as a helper, under PHP 8.
pub mod Pending
use php_handlebars.Base.{
  ℕ, Bool, true, false, ◌||◌, Option, none, some, List, [], ◌∷◌, Text, lit, if◌then◌else◌,
}
use php_handlebars.Zend.{ℤ, Zval}
use php_handlebars.Zend.Engine.{Engine, safe_string}
use php_handlebars.Libhandlebars.{LibError, LibResult, returns, raises}
use php_handlebars.Utils.IntArray.{is_callable}
use php_handlebars.Value.{Memo, known, HandlebarsZval, Value, safe}
use php_handlebars.Value.FromZval.{from_zval}
use php_handlebars.Value.Find.{recall}
use php_handlebars.Value.SendOptions.{Callee, call_arguments}

-- What `zend_call_function` leaves: FAILURE or not, the value returned, and `EG(exception)`.
pub record Called : Type 0 where
  pub failed : Bool
  pub z_ret : Zval
  pub exception : Bool

-- What the call takes from the engine and from libhandlebars: the function of an object, the call of its
-- `__invoke`, and the number HANDELBARS_EXTERNAL_ERROR.
pub record Calls : Type 0 where
  pub callee : ℕ → Callee
  pub call_function : ℕ → List Zval → Called
  pub external_error : ℤ

-- HANDLEBARS_VALUE_FLAG_SAFE_STRING, set on the string that was converted.
unfoldable pub with_safe_flag : Value → Value
with_safe_flag (Value.string s) = safe s
with_safe_flag v = v

unfoldable pub safe_result : LibResult Value → LibResult Value
unfolding with_safe_flag
safe_result (returns v) = returns (with_safe_flag v)
safe_result (raises x) = raises x

unfoldable pub is_safe_result : Engine → Zval → Bool
is_safe_result e (Zval.object o) = e.instance_of o safe_string
is_safe_result e _ = false

-- `z_ret`, converted over `rv`
unfoldable pub returned_value : Engine → Zval → Value → LibResult Value
unfolding is_safe_result safe_result
returned_value e z_ret rv =
    if is_safe_result e z_ret
    then safe_result (from_zval (Zval.string (e.convert_to_string z_ret)) rv)
    else from_zval z_ret rv

-- `if( EG(exception) )`, where a call that failed has thrown one.
unfoldable pub checked_result : Calls → Called → LibResult Value → LibResult Value
checked_result z r (raises x) = raises x
checked_result z r (returns v) =
    if r.failed || r.exception
    then raises (record { num = z.external_error; message = lit "external error"; external = true })
    else returns v

unfoldable pub call_object : Engine → Calls → ℕ → List Value → Zval → Value → LibResult Value
unfolding returned_value checked_result
call_object e z o args options rv =
    let r = z.call_function o (call_arguments (z.callee o) args options) in
    checked_result z r (returned_value e r.z_ret rv)

-- With the value's flags as they are afterwards.
unfoldable pub zval_call :
    Engine → Calls → HandlebarsZval → List Value → Zval → Value → LibResult Value × HandlebarsZval
unfolding call_object
zval_call e z obj args options rv = elim obj.intern [
  | Zval.object o ↦
      let flag = recall obj.callable (is_callable e (Zval.object o)) in
      (
        if flag then call_object e z o args options rv else returns rv,
        record obj { callable = known flag },
      )
  | _ ↦ (returns rv, obj)
]
