-- ===== src/Vm/Object/Reachable.antt =====
-- What holds of a `Handlebars\VM` object whatever its own methods are called with.
use php_handlebars.Base.{Option, List, [], ◌++◌}
use php_handlebars.Zend.{Zval}
use php_handlebars.Zend.Outcome.{Exception}
use php_handlebars.Value.{Value}
use php_handlebars.Implementation.{logger_property, decorators_property}
use php_handlebars.Vm.Object.{
  VmObj, obj_create, Called, vm_set_helpers, vm_set_partials, vm_update_property, vm_construct,
}
use php_handlebars.Vm.Object.Kept.{IsNulling, Kept, IsCoherent}

-- The objects that calls of the constructor and of the setters lead to, with all the exceptions that
-- were thrown on the way.
pub data Reachable (dtor : Value → Value) : VmObj → List Exception → Type 0 where
  created : Reachable dtor obj_create []
  constructed :
      (obj : VmObj) (xs : List Exception) (options : Option Zval)
      → Reachable dtor obj xs
      → Reachable dtor
          (vm_construct dtor options obj).obj
          (xs ++ (vm_construct dtor options obj).exceptions)
  helpers_set :
      (obj : VmObj) (xs : List Exception) (v : Zval)
      → Reachable dtor obj xs
      → Reachable dtor
          (vm_set_helpers dtor v obj).obj
          (xs ++ (vm_set_helpers dtor v obj).exceptions)
  partials_set :
      (obj : VmObj) (xs : List Exception) (v : Zval)
      → Reachable dtor obj xs
      → Reachable dtor
          (vm_set_partials dtor v obj).obj
          (xs ++ (vm_set_partials dtor v obj).exceptions)
  decorators_set :
      (obj : VmObj) (xs : List Exception) (v : Zval)
      → Reachable dtor obj xs
      → Reachable dtor (vm_update_property decorators_property v obj).obj xs
  logger_set :
      (obj : VmObj) (xs : List Exception) (v : Zval)
      → Reachable dtor obj xs
      → Reachable dtor (vm_update_property logger_property v obj).obj xs

module _ (dtor : Value → Value) (nulls : IsNulling dtor) where
  -- A call that leaves an object coherent.
  abbrev Continues : List Exception → Called → Type 0
  Continues xs c = IsCoherent c.obj (xs ++ c.exceptions)
