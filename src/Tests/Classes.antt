-- ===== src/Tests/Classes.antt =====
-- The theorems on the registration of the classes, with PHP's own as they are in PHP 8, and those on
-- the start of the module with them.
use php_handlebars.Base.{
  ℕ, ◌≡◌, refl, true, false, not, ◌&&◌, none, some, List, [], ◌∷◌, Text, lit, All, ◌==◌, text_eq,
}
use php_handlebars.Zend.{pos}
use php_handlebars.Zend.Outcome.{ok, runtime_exception}
use php_handlebars.Module.Ini.{Configuration}
use php_handlebars.Module.Startup.{Environment, Started, module_start}
use php_handlebars.Module.Startup.Ends.{constant, is_null}
use php_handlebars.Classes.{Class, pointee, has_name}
use php_handlebars.Classes.Impl.{impl_methods}
use php_handlebars.Classes.Ast.{program_construct_arginfo, program_construct_parameters}
use php_handlebars.Classes.Exceptions.{Builtins}
use php_handlebars.Classes.Registration.{Host, register_classes}
use php_handlebars.Classes.Hierarchy.{table}
use php_handlebars.Classes.Instances.{instance_of, thrown_class, is_own, IsPhp, thrown-instances}
use php_handlebars.Classes.Signatures.{find_method, Implements, vm-Implements, orphaned_vm}
use php_handlebars.Classes.Arguments.{
  Owned, declares, lets_through, is_program_construct, undeclared, is_narrow, declares-lets_through,
}
use php_handlebars.Vm.Render.{render, input_type_string}
use php_handlebars.Vm.Render.Configured.{world_of, render-cli}
use php_handlebars.Tests.Start.{failing}
use php_handlebars.Tests.Fixtures.{test_library, always_hi, caching_world}

abbrev php_class : Text → List Text → Class
php_class name supers = record { name = name; is_interface = false; supers = supers; methods = [] }

abbrev php : Builtins
php = record {
  exception = php_class (lit "Exception") (lit "Throwable" ∷ lit "Stringable" ∷ []);
  spl_runtime_exception =
      php_class (lit "RuntimeException")
        (lit "Exception" ∷ lit "Throwable" ∷ lit "Stringable" ∷ []);
  spl_array_object = php_class (lit "ArrayObject") (lit "ArrayAccess" ∷ lit "Traversable" ∷ []);
  arrayaccess = php_class (lit "ArrayAccess") [];
  traversable = php_class (lit "Traversable") [];
}

abbrev plain_host : Host
plain_host = record { builtins = php; has_psr = false; logger_aware = none; enable_ast = true }

abbrev psr_host : Host
psr_host = record plain_host {
  has_psr = true;
  logger_aware = some (php_class (lit "Psr\\Log\\LoggerAwareInterface") []);
}

abbrev broken_host : Host
broken_host = record plain_host { has_psr = true }

php-IsPhp : IsPhp php
unfolding has_name
php-IsPhp = record { is_exception = refl; is_runtime = refl; is_foreign = refl }

thrown-instances_example :
    (register_classes plain_host ≡ ok (table plain_host))
    × (c : Class) × (thrown_class php (table plain_host) runtime_exception ≡ some c)
    × (instance_of c (lit "Exception") ≡ true)
    × (instance_of c (lit "Handlebars\\Exception") ≡ is_own runtime_exception)
thrown-instances_example = thrown-instances plain_host runtime_exception php-IsPhp

vm-Implements_example :
    (register_classes psr_host ≡ ok (table psr_host))
    × (vm : Class) × (pointee (lit "HandlebarsVM_ce_ptr") (table psr_host) ≡ some vm)
    × (instance_of vm (lit "Handlebars\\Impl") ≡ true)
    × All (Implements vm) impl_methods
vm-Implements_example = vm-Implements psr_host refl

orphaned_vm_example :
    (register_classes broken_host ≡ ok (table broken_host))
    × (pointee (lit "HandlebarsBaseImpl_ce_ptr") (table broken_host) ≡ none)
    × (vm : Class) × (pointee (lit "HandlebarsVM_ce_ptr") (table broken_host) ≡ some vm)
    × (instance_of vm (lit "Handlebars\\Impl") ≡ false)
    × (find_method (lit "getLogger") vm.methods ≡ none)
    × (find_method (lit "getDecorators") vm.methods ≡ none)
    × (find_method (lit "getHelpers") vm.methods ≡ none)
    × (find_method (lit "getPartials") vm.methods ≡ none)
orphaned_vm_example = orphaned_vm broken_host refl

abbrev program_construct : Owned
program_construct = (
  lit "Program",
  record {
    name = lit "__construct";
    arginfo = program_construct_arginfo;
    parameters = program_construct_parameters;
    is_static = false;
    is_abstract = false;
  },
)

declares-lets_through_example :
    (declares program_construct.1.arginfo 2 && not (lets_through program_construct.1.parameters 2)
      ≡ (is_program_construct program_construct && 2 == 2))
    × (undeclared program_construct.1 2 && not (is_narrow program_construct) ≡ false)
declares-lets_through_example = declares-lets_through 41 2 program_construct refl

-- A configuration without entries.
abbrev defaults : Configuration
defaults = record {
  configured = λ name. none;
  to_long = λ value. pos 0;
  to_bool = λ value. text_eq value (lit "1");
}

abbrev command_line : Environment ℕ
command_line = record {
  configuration = defaults;
  sapi_name = lit "cli";
  backends = failing;
  classes = plain_host;
  library_version = lit "1.0.0";
  compiled_version = lit "1.0.0";
}

abbrev server : Environment ℕ
server = record command_line { sapi_name = lit "fpm-fcgi" }

render-cli_example :
    (r : Started ℕ) × (module_start 1 command_line ≡ some (ok r))
    × (is_null (constant (lit "Handlebars\\CACHE_BACKEND") r.constants) ≡ true)
    × ((render test_library
          (world_of (λ (cache : ℕ). always_hi) r.globals caching_world)
          input_type_string
          (lit "hi")
          none
          none).trace
        ≡ [])
render-cli_example =
    render-cli command_line 0 (λ (cache : ℕ). always_hi) test_library caching_world
      input_type_string (lit "hi") none none refl refl
