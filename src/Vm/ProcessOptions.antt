-- ===== src/Vm/ProcessOptions.antt =====
-- `php_handlebars_process_options_zval` of src/vm.c.
pub mod Requested
use php_handlebars.Base.{
  ℕ, Bool, true, false, ◌&&◌, ◌||◌, not, Option, none, some, List, [], ◌∷◌, Text, lit, ◌==◌,
  if◌then◌else◌,
}
use php_handlebars.Zend.{Zval, Buckets, null, is_true, is_false, array, name}
use php_handlebars.Zend.Hash.{find}
use php_handlebars.Value.{Value}
use php_handlebars.Value.FromZval.{from_zval}
use php_handlebars.Libhandlebars.{
  LibResult, returns, raises, CompilerFlag, Flags, Compiler, Vm, alternate_decorators, compat,
  use_data, explicit_partial_context, ignore_standalone, known_helpers_only, prevent_indent,
  string_params, track_ids, strict, assume_objects, mustache_style_lambdas,
}
use php_handlebars.Vm.KnownHelpers.{StringArray, known_helpers_from_zval}

-- `Z_IS_TRUE_P`
unfoldable pub z_is_true : Zval → Bool
z_is_true is_true = true
z_is_true _ = false

-- `!Z_IS_BOOL_P(entry) && Z_TYPE_P(entry) != IS_NULL`
unfoldable pub is_data_value : Zval → Bool
is_data_value is_true = false
is_data_value is_false = false
is_data_value null = false
is_data_value _ = true

-- `flags |= f` if the option is true
unfoldable pub or_flag : Buckets → Text → CompilerFlag → Flags → Flags
unfolding z_is_true
or_flag ht key f flags = elim (find (name key) ht) [
  | none ↦ flags
  | some v ↦ if z_is_true v then f ∷ flags else flags
]

-- `data`: anything but a bool and null is the data itself.
unfoldable pub data_option : Buckets → Flags → Flags
unfolding z_is_true is_data_value
data_option ht flags = elim (find (name (lit "data")) ht) [
  | none ↦ flags
  | some v ↦
      if is_data_value v then use_data ∷ flags else if z_is_true v then use_data ∷ flags else flags
]

-- The data, converted and set in the vm.
unfoldable pub vm_data_option : Buckets → Vm → LibResult Vm
unfolding is_data_value
vm_data_option ht vm = elim (find (name (lit "data")) ht) [
  | none ↦ returns vm
  | some v ↦
      if is_data_value v
      then (elim (from_zval v Value.null) [
        | returns d ↦ returns (record vm { data_value = some d })
        | raises x ↦ raises x
      ])
      else returns vm
]

-- `handlebars_compiler_set_known_helpers`
unfoldable pub known_helpers_option : Buckets → Compiler → Compiler
known_helpers_option ht compiler = elim (find (name (lit "knownHelpers")) ht) [
  | none ↦ compiler
  | some v ↦ elim (known_helpers_from_zval v) [
    | none ↦ record compiler { known_helpers = none }
    | some a ↦ record compiler { known_helpers = some a.strings }
  ]
]

unfoldable pub option_flags : Buckets → Flags
unfolding or_flag data_option
option_flags ht =
    let f1 = or_flag ht (lit "alternateDecorators") alternate_decorators [] in
    let f2 = or_flag ht (lit "compat") compat f1 in
    let f3 = data_option ht f2 in
    let f4 = or_flag ht (lit "explicitPartialContext") explicit_partial_context f3 in
    let f5 = or_flag ht (lit "ignoreStandalone") ignore_standalone f4 in
    let f6 = or_flag ht (lit "knownHelpersOnly") known_helpers_only f5 in
    let f7 = or_flag ht (lit "preventIndent") prevent_indent f6 in
    let f8 = or_flag ht (lit "stringParams") string_params f7 in
    let f9 = or_flag ht (lit "trackIds") track_ids f8 in
    let f10 = or_flag ht (lit "strict") strict f9 in
    let f11 = or_flag ht (lit "assumeObjects") assume_objects f10 in
    or_flag ht (lit "mustacheStyleLambdas") mustache_style_lambdas f11

pub record Processed : Type 0 where
  pub compiler : Compiler
  pub vm : Option Vm
  pub flags : Flags

unfoldable pub set_vm : Buckets → Option Vm → Flags → LibResult (Option Vm)
unfolding vm_data_option
set_vm ht none flags = returns none
set_vm ht (some vm) flags = elim (vm_data_option ht vm) [
  | returns vm' ↦ returns (some (record vm' { flags = flags }))
  | raises x ↦ raises x
]

-- The compiler with its options, of an array or of anything else.
unfoldable pub set_compiler : Compiler → Option Zval → Compiler
unfolding option_flags known_helpers_option
set_compiler compiler (some (array ht)) = record (known_helpers_option ht compiler) {
  flags = option_flags ht;
}
set_compiler compiler _ = record compiler { flags = [] }

unfoldable pub process_options : Compiler → Option Vm → Option Zval → LibResult Processed
unfolding set_vm set_compiler
process_options compiler vm (some (array ht)) = elim (set_vm ht vm (option_flags ht)) [
  | returns vm' ↦ returns (record {
    compiler = set_compiler compiler (some (array ht));
    vm = vm';
    flags = option_flags ht;
  })
  | raises x ↦ raises x
]
process_options compiler vm z_options =
    returns (record { compiler = set_compiler compiler z_options; vm = vm; flags = [] })
