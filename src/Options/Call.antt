-- ===== src/Options/Call.antt =====
-- `php_handlebars_options_call` of src/options.c: the methods `fn` and `inverse`.
pub mod Branches
use php_handlebars.Base.{
  ℕ, Bool, true, false, Option, none, some, List, [], ◌∷◌, Text, lit, if◌then◌else◌,
}
use php_handlebars.Zend.{ℤ, pos, negsuc, Zval, Buckets, name}
use php_handlebars.Zend.Hash.{find}
use php_handlebars.Zend.Outcome.{Outcome, ok, runtime_exception, throw_exception}
use php_handlebars.Libhandlebars.{LibError, LibResult, returns, raises, php_handlebars_try}
use php_handlebars.Value.{Value}
use php_handlebars.Value.FromZval.{from_zval}
use php_handlebars.Options.{HandlebarsOptions, OptionsObj, StdHandlers}
use php_handlebars.Options.Properties.{object_read_property}

-- What the method calls: an object's `__invoke` through `call_user_function`, and
-- `handlebars_vm_execute_program_ex` of libhandlebars, which is given the context, the data and the
-- block parameters.
pub record Callees : Type 0 where
  pub call_user_function : ℕ → List Zval → Outcome Zval
  pub execute_program : ℤ → Value → Option Value → Option Value → LibResult Text

-- How the method ends: it returns to PHP, with the jump buffer of the vm then in place, or an error is
-- raised to the buffer that was in place.
pub data Ending (J : Type 0) : Type 0 where
  to_php : Outcome Zval → J → Ending J
  to_buffer : J → LibError → Ending J

abbrev then_value : {J : Type 0} → J → LibResult Value → (Value → Ending J) → Ending J
then_value jmp (returns v) k = k v
then_value jmp (raises x) k = to_buffer jmp x

-- NULL, or the entry's value
abbrev then_entry : {J : Type 0} → J → Option Zval → (Option Value → Ending J) → Ending J
then_entry jmp none k = k none
then_entry jmp (some entry) k = then_value jmp (from_zval entry Value.null) (λ v. k (some v))

abbrev returned_zval : Outcome (Option Text) → Outcome Zval
returned_zval (Outcome.ok none) = ok Zval.null
returned_zval (Outcome.ok (some s)) = ok (Zval.string s)
returned_zval (Outcome.throw e) = Outcome.throw e
returned_zval Outcome.aborted = Outcome.aborted

-- An entry of the second argument, where that is an array.
unfoldable pub option_entry : Option Zval → Text → Option Zval
option_entry (some (Zval.array b)) key = find (name key) b
option_entry _ key = none

unfoldable pub passed : Option Zval → Option Zval → List Zval
passed none options = []
passed (some context) none = context ∷ []
passed (some context) (some options) = context ∷ options ∷ []

-- `!vm`: the object was probably constructed in user land.
unfoldable pub call_user_land :
    {P : Type 0}
    → StdHandlers P
    → Callees
    → Bool
    → Option Zval
    → Option Zval
    → OptionsObj P
    → Outcome Zval
unfolding passed
call_user_land h c program context options obj =
    elim (object_read_property h (if program then lit "fn" else lit "inverse") obj).0 [
      | Zval.object o ↦ c.call_user_function o (passed context options)
      | _ ↦ throw_exception runtime_exception (lit "fn is not set")
    ]

module _ {J : Type 0} (c : Callees) where
  -- The buffer is `buf` while the program runs, and `prev` again at `done`.
  unfoldable pub execute_saved : J → ℤ → Value → Option Value → Option Value → Ending J
  execute_saved prev guid context block_data block_params =
      to_php
        (returned_zval (
          php_handlebars_try runtime_exception
            (c.execute_program guid context block_data block_params) (λ s. ok (some s))))
        prev

  unfoldable pub call_program : J → ℤ → Option Zval → Option Zval → Ending J
  unfolding option_entry execute_saved
  call_program jmp guid z_context z_options = then_entry jmp z_context (λ context.
      then_entry jmp (option_entry z_options (lit "data")) (λ block_data.
        then_entry jmp (option_entry z_options (lit "blockParams")) (λ block_params.
          execute_saved jmp guid (elim context [ none ↦ Value.null | some v ↦ v ]) block_data
            block_params)))

  -- A guid below 0: nothing to do.
  unfoldable pub call_guid : J → ℤ → Option Zval → Option Zval → Ending J
  unfolding call_program
  call_guid jmp (pos n) context options = call_program jmp (pos n) context options
  call_guid jmp (negsuc n) context options = to_php (ok Zval.null) jmp

  unfoldable pub options_call :
      {P : Type 0} → StdHandlers P → Bool → J → Option Zval → Option Zval → OptionsObj P → Ending J
  unfolding call_user_land call_guid
  options_call h program jmp context options obj =
      if obj.vm
      then call_guid jmp (if program then obj.options.program else obj.options.inverse) context
          options
      else to_php (call_user_land h c program context options obj) jmp
