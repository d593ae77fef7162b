-- ===== src/Libhandlebars.antt =====
-- The interface of libhandlebars that the extension calls. The library is not in the repository: the
-- functions are a parameter of the model, and so are the types of its syntax trees and programs.
-- Its compiler, vm and parser objects are represented by what the extension stores in them.
use php_handlebars.Base.{ℕ, ◌≡◌, refl, ◌⊎◌, inl, inr, Bool, true, false, Option, none, List, Text}
use php_handlebars.Zend.{ℤ, Zval}
use php_handlebars.Value.{Value}
use php_handlebars.Zend.Outcome.{Outcome, ok, ExceptionClass, throw}

-- What `longjmp` brings back: `HANDELBARS_EXTERNAL_ERROR` is an error whose PHP exception is pending.
pub record LibError : Type 0 where
  pub num : ℤ
  pub message : Text
  pub external : Bool

pub data LibResult {ℓ} (A : Type ℓ) : Type ℓ where
  returns : A → LibResult A
  raises : LibError → LibResult A

-- The flags of `handlebars_compiler_set_flags`.
pub data CompilerFlag : Type 0 where
  alternate_decorators compat use_data explicit_partial_context ignore_standalone : CompilerFlag
  known_helpers_only prevent_indent string_params track_ids strict : CompilerFlag
  assume_objects mustache_style_lambdas : CompilerFlag

-- A word of flags, as the set of those that were or-ed into it.
abbrev pub Flags : Type 0
Flags = List CompilerFlag

-- `known_helpers` is the array of strings, or none for NULL.
pub record Compiler : Type 0 where
  pub flags : Flags
  pub known_helpers : Option (List Text)

-- What the extension sets in a `handlebars_vm` before it runs a template.
pub record Vm : Type 0 where
  pub flags : Flags
  pub data_value : Option Value
  pub helpers : Value
  pub partials : Value
  -- the cache that it was given, in which it finds and saves the modules of partials
  pub cache : Option (Text → Option Text)
  -- the property `logger` of the object that is handed to `php_handlebars_log`
  pub logger : Zval

-- What a run of `handlebars_vm_execute` returns: its buffer, or none for NULL, and whether a PHP
-- exception is pending (`EG(exception)`).
pub record Run : Type 0 where
  pub buffer : Option Text
  pub exception : Bool

-- A module is one block of memory, given by its bytes.
pub record Library (Ast Program : Type 0) : Type 0 where
  -- `handlebars_builtins_names`, which a new compiler has for its known helpers
  pub builtins : List Text
  pub preprocess_delimiters : Text → LibResult Text
  pub parse : Text → Flags → LibResult Ast
  pub compile : Compiler → Ast → LibResult Program
  pub serialize : Program → LibResult Text
  -- `handlebars_module_get_size`, `_get_version` and `_get_ts`, read from the module's header
  pub get_size : Text → ℕ
  pub get_version : Text → ℕ
  pub get_ts : Text → ℤ
  pub normalize_pointers : Text → Text
  pub patch_pointers : Text → Text
  -- `handlebars_hash_xxh3` and `handlebars_version`
  pub xxh3 : Text → ℕ
  pub version : ℕ
  pub execute : Vm → Text → Value → LibResult Run
  -- the modules that such a run adds to the vm's cache, with their ids, whether it returns or raises
  pub saves : (Text → Option Text) → Vm → Text → Value → List (Text × Text)
  -- the conversions `%zu` and `%d`
  pub print_number : ℕ → Text

-- `php_handlebars_throw`: an external error throws nothing of its own.
unfoldable pub php_handlebars_throw {ℓ} :
    {A : Type ℓ} → ExceptionClass → LibError → Outcome (Option A)
php_handlebars_throw ce e = elim e.external [
  | true ↦ ok none
  | false ↦ throw (record { class_entry = ce; message = e.message; code = e.num })
]

-- `php_handlebars_try`: what follows runs until the library raises an error.
unfoldable pub php_handlebars_try {ℓ κ} :
    {A : Type ℓ} {B : Type κ}
    → ExceptionClass
    → LibResult A
    → (A → Outcome (Option B))
    → Outcome (Option B)
unfolding php_handlebars_throw
php_handlebars_try ce (returns a) k = k a
php_handlebars_try ce (raises e) k = php_handlebars_throw ce e

pub LibResult-cases {ℓ} :
    {A : Type ℓ} (r : LibResult A) → ((a : A) × (r ≡ returns a)) ⊎ ((e : LibError) × (r ≡ raises e))
LibResult-cases (returns a) = inl (a, refl)
LibResult-cases (raises e) = inr (e, refl)
