-- ===== src/Tests/Start.antt =====
-- The theorems on the vm object of src/vm.c and on the module's start in src/php_handlebars.c.
use php_handlebars.Base.{ℕ, false, Option, none, some, lit}
use php_handlebars.Zend.{Zval, pos, end, bucket, name}
use php_handlebars.Libhandlebars.{returns, raises, LibError}
use php_handlebars.Value.{Value}
use php_handlebars.Vm.Object.{VmObj, obj_create, vm_construct, vm_set_helpers}
use php_handlebars.Module.{Globals, Backends, Setup, ginit}

abbrev to_null : Value → Value
to_null v = Value.null

abbrev options : Option Zval
options = some (
    Zval.array (
      bucket (name (lit "helpers")) (Zval.object 7)
        (bucket (name (lit "logger")) (Zval.object 8) end)))

abbrev set_up : VmObj
set_up = (vm_set_helpers to_null (Zval.object 9) (vm_construct to_null options obj_create).obj).obj

abbrev constructed_obj : VmObj
constructed_obj = (vm_construct to_null options obj_create).obj

-- Without lmdb, and with mmap refused.
abbrev pub no_memory : LibError
no_memory = record { num = pos 2; message = lit "mmap"; external = false }

abbrev pub failing : Backends ℕ
failing = record {
  simple_ctor = returns 5;
  lmdb_ctor = none;
  mmap_ctor = some (λ size entries. raises no_memory);
}

abbrev simple_globals : Globals ℕ
unfolding ginit
simple_globals = record ginit { cache_backend = lit "simple" }

abbrev simple_setup : Setup ℕ
unfolding ginit
simple_setup = record {
  globals = record simple_globals { cache = some 5 };
  backend = some (lit "simple");
}
