-- ===== src/Value/Call/Pending.antt =====
-- PHP exceptions of a helper that src/value.c calls.
use php_handlebars.Base.{ℕ, ◌≡◌, refl, subst, ◌∙◌, true, Option, none, List, lit, arith}
use php_handlebars.Zend.{Zval, undef, object}
use php_handlebars.Zend.Outcome.{Outcome, ok, ExceptionClass}
use php_handlebars.Zend.Engine.{Engine}
use php_handlebars.Libhandlebars.{raises, php_handlebars_try}
use php_handlebars.Utils.IntArray.{is_callable}
use php_handlebars.Value.{HandlebarsZval, Value}
use php_handlebars.Value.FromZval.{from_zval}
use php_handlebars.Value.Find.{recall}
use php_handlebars.Value.Find.Memoised.{Holds, IsMemoised, recall-Holds}
use php_handlebars.Value.SendOptions.{call_arguments}
use php_handlebars.Value.Call.{
  Called, Calls, zval_call, call_object, returned_value, checked_result, is_safe_result,
}

-- What calling the object with the arguments leaves.
abbrev pub called : Calls → ℕ → List Value → Zval → Called
called z o args options = z.call_function o (call_arguments (z.callee o) args options)

call_object-external :
    (e : Engine) (z : Calls) (o : ℕ) (args : List Value) (options : Zval) (rv : Value)
    → (called z o args options).exception ≡ true
    → (called z o args options).z_ret ≡ undef
    → call_object e z o args options rv
      ≡ raises (record { num = z.external_error; message = lit "external error"; external = true })
unfolding call_object returned_value checked_result is_safe_result from_zval
call_object-external e z o args options rv thrown nothing = ground (arith, thrown, nothing)

zval_call-external :
    (e : Engine) (z : Calls) (obj : HandlebarsZval) (o : ℕ) (args : List Value) (options : Zval)
    (rv : Value)
    → obj.intern ≡ object o
    → recall obj.callable (is_callable e (object o)) ≡ true
    → (called z o args options).exception ≡ true
    → (called z o args options).z_ret ≡ undef
    → (zval_call e z obj args options rv).0
      ≡ raises (record { num = z.external_error; message = lit "external error"; external = true })
unfolding zval_call
zval_call-external e z obj o args options rv is_object flag thrown nothing =
    ground (arith, flag, call_object-external e z o args options rv thrown nothing)

callable_flag :
    (e : Engine) (obj : HandlebarsZval) (o : ℕ)
    → obj.intern ≡ object o
    → is_callable e (object o) ≡ true
    → IsMemoised e obj
    → recall obj.callable (is_callable e (object o)) ≡ true
callable_flag e obj o is_object callable memo =
    let kept : Holds obj.callable (is_callable e (object o)) =
      subst (λ v. Holds obj.callable (is_callable e v)) is_object memo.0 in
    recall-Holds obj.callable (is_callable e (object o)) kept ∙ callable

-- If a callable object, called as a helper, throws a PHP exception and so returns nothing, the call
-- raises an external error, whatever its flags, as far as they hold, and `php_handlebars_try` throws no
-- exception of its own over it: the method returns null with the helper's exception pending.
pub zval_call-pending :
    {B : Type 0} (e : Engine) (z : Calls) (obj : HandlebarsZval) (o : ℕ) (args : List Value)
    (options : Zval) (rv : Value) (ce : ExceptionClass) (k : Value → Outcome (Option B))
    → obj.intern ≡ object o
    → is_callable e (object o) ≡ true
    → IsMemoised e obj
    → (called z o args options).exception ≡ true
    → (called z o args options).z_ret ≡ undef
    → php_handlebars_try ce (zval_call e z obj args options rv).0 k ≡ ok none
unfolding php_handlebars_try
zval_call-pending e z obj o args options rv ce k is_object callable memo thrown nothing =
    rw
      (zval_call-external e z obj o args options rv is_object
        (callable_flag e obj o is_object callable memo) thrown nothing)
      refl
