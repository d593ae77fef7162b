-- ===== src/Options/Call/Branches.antt =====
-- How the methods `fn` and `inverse` of src/options.c end.
use php_handlebars.Base.{◌≡◌, refl, ap, ◌∙◌, ℕ, Bool, true, false, Option, some, lit, arith}
use php_handlebars.Zend.{Zval, Buckets, name, null}
use php_handlebars.Zend.Hash.{find}
use php_handlebars.Zend.Outcome.{throw_exception, runtime_exception}
use php_handlebars.Options.{OptionsObj, StdHandlers, IsStandard, obj_create, options_dtor_ctx_dtor}
use php_handlebars.Options.Properties.{construct, object_read_property, prop_handler}
use php_handlebars.Options.Properties.Lazy.{object_read_property-visible}
use php_handlebars.Options.Properties.Construct.{IsArray, or_else_stored, read-construct}
use php_handlebars.Options.Lifetime.{read-options_dtor_ctx_dtor}
use php_handlebars.Options.Call.{
  Callees, Ending, to_php, to_buffer, passed, call_user_land, options_call, call_guid, call_program,
  execute_saved,
}

-- The buffer in place at the end.
abbrev pub buffer : {J : Type 0} → Ending J → J
buffer (to_php r jmp) = jmp
buffer (to_buffer jmp x) = jmp

created-fn :
    {P : Type 0}
    → (h : StdHandlers P) (b : Buckets) (p : P) (o : ℕ) → IsStandard h
    → IsArray b
    → find (name (lit "fn")) b ≡ some (Zval.object o)
    → (object_read_property h (lit "fn") (construct h (some b) (obj_create p))).0 ≡ Zval.object o
unfolding construct obj_create prop_handler
created-fn h b p o s d f =
    object_read_property-visible h (lit "fn") (construct h (some b) (obj_create p)) s refl
    ∙ read-construct h b (lit "fn") (obj_create p) s d
    ∙ ap (λ found. or_else_stored found null) f

module _ {J P : Type 0} (h : StdHandlers P) (c : Callees) where
  -- On every path, errors included, the jump buffer of the vm is at the end the one that it was.
  pub buffer-options_call :
      (program : Bool) (jmp : J) (context options : Option Zval) (obj : OptionsObj P)
      → buffer (options_call c h program jmp context options obj) ≡ jmp
  unfolding options_call call_guid call_program execute_saved
  buffer-options_call program jmp context options obj = ground arith

  -- Once the vm is freed, the method `inverse` of an object with standard handlers throws that no
  -- function is set, whatever the object was given before.
  pub options_call-freed :
      (jmp : J) (context options : Option Zval) (obj : OptionsObj P)
      → IsStandard h
      → options_call c h false jmp context options (options_dtor_ctx_dtor obj)
        ≡ to_php (throw_exception runtime_exception (lit "fn is not set")) jmp
  unfolding options_call call_user_land options_dtor_ctx_dtor
  options_call-freed jmp context options obj s =
      ground (arith, (read-options_dtor_ctx_dtor h obj s).1)

  user_land_call :
      (jmp : J) (context options : Option Zval) (o : ℕ) (obj : OptionsObj P)
      → obj.vm ≡ false
      → (object_read_property h (lit "fn") obj).0 ≡ Zval.object o
      → options_call c h true jmp context options obj
        ≡ to_php (c.call_user_function o (passed context options)) jmp
  unfolding options_call call_user_land
  user_land_call jmp context options o obj user_land fn = ground arith

  -- An object that PHP code constructs, with standard handlers and an array of distinct names that are
  -- not mangled in which `fn` is an object, calls this object's `__invoke` as its method `fn`, with
  -- the arguments that it was given, and returns what that returns.
  pub options_call-construct :
      (jmp : J) (context options : Option Zval) (b : Buckets) (o : ℕ) (p : P)
      → IsStandard h
      → IsArray b
      → find (name (lit "fn")) b ≡ some (Zval.object o)
      → options_call c h true jmp context options (construct h (some b) (obj_create p))
        ≡ to_php (c.call_user_function o (passed context options)) jmp
  unfolding construct obj_create
  options_call-construct jmp context options b o p s d f =
      user_land_call jmp context options o (construct h (some b) (obj_create p)) refl
        (created-fn h b p o s d f)
