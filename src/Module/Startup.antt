-- ===== src/Module/Startup.antt =====
-- `PHP_MINIT_FUNCTION(handlebars)` of src/php_handlebars.c as a whole: the INI entries, the constants,
-- the cache, the classes.
pub mod Ends
use php_handlebars.Base.{
  ℕ, ◌≡◌, refl, Bool, true, false, Option, none, some, List, [], ◌∷◌, ◌++◌, Text, lit, text_eq,
  if◌then◌else◌, arith,
}
use php_handlebars.Zend.{ℤ, pos}
use php_handlebars.Zend.Outcome.{Outcome, ok, throw, aborted, ◌>>=◌}
use php_handlebars.Module.{Globals, Backends, Setup, ginit, minit}
use php_handlebars.Module.Ini.{Configuration, register_ini_entries}
use php_handlebars.Classes.{ClassTable}
use php_handlebars.Classes.Registration.{Host, register_classes}
use php_handlebars.Classes.Hierarchy.{table, register_classes-ok}

pub data Constant : Type 0 where
  long_constant : ℤ → Constant
  string_constant : Text → Constant
  null_constant : Constant

-- What the module starts in: the configuration, `sapi_module.name`, the caches' constructors, PHP's
-- classes and modules, and the versions of the library that is loaded and of the one compiled with.
pub record Environment (Cache : Type 0) : Type 0 where
  pub configuration : Configuration
  pub sapi_name : Text
  pub backends : Backends Cache
  pub classes : Host
  pub library_version : Text
  pub compiled_version : Text

pub record Started (Cache : Type 0) : Type 0 where
  pub globals : Globals Cache
  pub constants : List (Text × Constant)
  pub classes : ClassTable

abbrev pub php_handlebars_version : Text
php_handlebars_version = lit "1.0.0"

-- `PHP_HANDLEBARS_MOTD`
abbrev pub motd : Text
motd =
    lit "Think not that I am come to send peace on earth: "
    ++ lit "I came not to send peace, but a sword. Matthew 10:34"

-- `REGISTER_NULL_CONSTANT` is there in PHP 8.
unfoldable pub backend_constant : Option Text → Constant
backend_constant none = null_constant
backend_constant (some backend) = string_constant backend

module _ {Cache : Type 0} where
  -- `handlebars_has_psr`, and the constants that do not depend on the cache.
  unfoldable pub first_constants : Environment Cache → List (Text × Constant)
  first_constants e =
      (lit "Handlebars\\PSR", long_constant (if e.classes.has_psr then pos 1 else pos 0))
      ∷ (lit "Handlebars\\VERSION", string_constant php_handlebars_version)
      ∷ (lit "Handlebars\\LIBVERSION", string_constant e.library_version)
      ∷ (lit "Handlebars\\LIBVERSION2", string_constant e.compiled_version)
      ∷ (lit "Handlebars\\MOTD", string_constant motd)
      ∷ []

  unfoldable pub started : Environment Cache → Setup Cache → Outcome (Started Cache)
  unfolding first_constants backend_constant
  started e s = do
    t ← register_classes e.classes
    ok (record {
      globals = s.globals;
      constants =
          first_constants e ++ (lit "Handlebars\\CACHE_BACKEND", backend_constant s.backend) ∷ [];
      classes = t;
    })

  unfoldable pub after_setup :
      Environment Cache → Option (Setup Cache) → Option (Outcome (Started Cache))
  unfolding started
  after_setup e none = none
  after_setup e (some s) = some (started e s)

  -- The setup of the cache, with the INI entries registered before it.
  unfoldable pub setup : ℕ → Environment Cache → Option (Setup Cache)
  setup n e =
      minit n (text_eq e.sapi_name (lit "cli")) e.backends
        (register_ini_entries e.configuration ginit)

  -- The whole function; the number bounds the rounds of the cache's setup.
  unfoldable pub module_start : ℕ → Environment Cache → Option (Outcome (Started Cache))
  unfolding after_setup setup
  module_start n e = after_setup e (setup n e)

  pub started-ok :
      (e : Environment Cache) (s : Setup Cache)
      → (r : Started Cache) × (started e s ≡ ok r)
        × (r.globals ≡ s.globals)
        × (r.classes ≡ table e.classes)
        × (r.constants
            ≡ first_constants e
              ++ (lit "Handlebars\\CACHE_BACKEND", backend_constant s.backend) ∷ [])
  unfolding started
  started-ok e s = rw (register_classes-ok e.classes) (_, refl, refl, refl, refl)
