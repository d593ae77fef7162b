-- ===== src/Vm/Object.antt =====
-- The object of `Handlebars\VM` in src/vm.c: its construction, and the helpers and partials that it
-- keeps converted beside its properties.
pub mod Kept
pub mod Reachable
pub mod Options
use php_handlebars.Base.{
  Bool, true, false, Option, none, some, List, [], ◌∷◌, ◌++◌, Text, lit, if◌then◌else◌,
}
use php_handlebars.Zend.{Zval, Buckets, name}
use php_handlebars.Zend.Hash.{find}
use php_handlebars.Zend.Outcome.{Exception, ExceptionClass, runtime_exception}
use php_handlebars.Libhandlebars.{LibError, returns, raises}
use php_handlebars.Value.{Value, no_fields}
use php_handlebars.Value.FromZval.{from_zval}
use php_handlebars.Implementation.{
  Impl, default_impl, Property, update_property, logger_property, decorators_property,
  helpers_property, partials_property,
}

-- `struct php_handlebars_vm_obj`; `jmp` says that a jump buffer is set in the object's context. The
-- pointers to the helpers and the partials are never NULL after the object's creation.
pub record VmObj : Type 0 where
  pub jmp : Bool
  pub helpers : Value
  pub partials : Value
  pub std : Impl

-- `php_handlebars_vm_obj_create`
abbrev pub obj_create : VmObj
obj_create = record {
  jmp = false;
  helpers = Value.map no_fields;
  partials = Value.map no_fields;
  std = default_impl;
}

-- What `php_handlebars_vm_obj_free` gives up, in its order.
pub data Freed : Type 0 where
  value_dtor : Value → Freed
  context_dtor std_dtor : Freed

unfoldable pub obj_free : VmObj → List Freed
obj_free obj = value_dtor obj.helpers ∷ value_dtor obj.partials ∷ context_dtor ∷ std_dtor ∷ []

-- An object after a call, and the exceptions thrown in it; a call of the extension goes on after
-- `zend_throw_exception`.
pub record Called : Type 0 where
  pub obj : VmObj
  pub exceptions : List Exception

-- `php_handlebars_throw` of a runtime exception, in a function that goes on to `done`.
unfoldable pub thrown : LibError → List Exception
thrown e =
    if e.external
    then []
    else record { class_entry = runtime_exception; message = e.message; code = e.num } ∷ []

-- `zend_update_property_ex` on the object
unfoldable pub vm_update_property : Property → Zval → VmObj → Called
unfolding update_property
vm_update_property p v obj = record {
  obj = record obj { std = update_property p v obj.std };
  exceptions = [];
}

-- A step of the constructor: what is done with an option that is there.
unfoldable pub with_option : Text → (Zval → VmObj → Called) → Buckets → Called → Called
with_option key step ht c = elim (find (name key) ht) [
  | none ↦ c
  | some v ↦
      let next = step v c.obj in
      record { obj = next.obj; exceptions = c.exceptions ++ next.exceptions }
]

-- `php_handlebars_try` leaves its jump buffer in the object's context.
unfoldable pub try_in : VmObj → VmObj
try_in obj = record obj { jmp = true }

-- `done`: the jump buffer is cleared.
unfoldable pub clear_jmp : Called → Called
clear_jmp c = record c { obj = record c.obj { jmp = false } }

-- `handlebars_value_dtor` is given by what it makes of a value.
module _ (dtor : Value → Value) where
  -- The stored value is destroyed before the new one is converted into it; the property is
  -- written only after that.
  unfoldable pub store_helpers : Zval → VmObj → Called
  unfolding thrown update_property
  store_helpers helpers obj = elim (from_zval helpers (dtor obj.helpers)) [
    | returns v ↦ record {
      obj = record obj { helpers = v; std = update_property helpers_property helpers obj.std };
      exceptions = [];
    }
    | raises e ↦ record { obj = record obj { helpers = dtor obj.helpers }; exceptions = thrown e }
  ]

  unfoldable pub vm_set_helpers : Zval → VmObj → Called
  unfolding store_helpers try_in clear_jmp
  vm_set_helpers helpers obj = clear_jmp (store_helpers helpers (try_in obj))

  unfoldable pub store_partials : Zval → VmObj → Called
  unfolding thrown update_property
  store_partials partials obj = elim (from_zval partials (dtor obj.partials)) [
    | returns v ↦ record {
      obj = record obj { partials = v; std = update_property partials_property partials obj.std };
      exceptions = [];
    }
    | raises e ↦ record { obj = record obj { partials = dtor obj.partials }; exceptions = thrown e }
  ]

  unfoldable pub vm_set_partials : Zval → VmObj → Called
  unfolding store_partials try_in clear_jmp
  vm_set_partials partials obj = clear_jmp (store_partials partials (try_in obj))

  -- `Handlebars\VM::__construct`
  unfoldable pub vm_construct : Option Zval → VmObj → Called
  unfolding vm_set_helpers vm_set_partials vm_update_property with_option
  vm_construct (some (Zval.array ht)) obj =
      let c1 =
        with_option (lit "helpers") vm_set_helpers ht (record { obj = obj; exceptions = [] }) in
      let c2 = with_option (lit "partials") vm_set_partials ht c1 in
      let c3 = with_option (lit "decorators") (vm_update_property decorators_property) ht c2 in
      with_option (lit "logger") (vm_update_property logger_property) ht c3
  vm_construct _ obj = record { obj = obj; exceptions = [] }
