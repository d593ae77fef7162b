-- ===== src/Vm/ProcessOptions/Requested.antt =====
-- Which flags `php_handlebars_process_options_zval` of src/vm.c sets.
use php_handlebars.Base.{
  is_some, Option-cases, inl, inr, ℕ, ◌≡◌, refl, Bool, true, false, ◌&&◌, ◌||◌, Option, none, some,
  [], ◌∷◌, Text, lit, ◌==◌, arith,
}
use php_handlebars.Zend.{Zval, Buckets, array, null, is_true, is_false, name}
use php_handlebars.Zend.Hash.{find}
use php_handlebars.Value.{Value}
use php_handlebars.Value.FromZval.{from_zval}
use php_handlebars.Vm.ProcessOptions.{Processed, set_vm, set_compiler, vm_data_option}
use php_handlebars.Libhandlebars.{
  LibError, Vm, Flags, returns, raises, Compiler, CompilerFlag, Flags, Compiler, Vm,
  alternate_decorators, compat, use_data, explicit_partial_context, ignore_standalone,
  known_helpers_only, prevent_indent, string_params, track_ids, strict, assume_objects,
  mustache_style_lambdas,
}
use php_handlebars.Vm.ProcessOptions.{or_flag, data_option, option_flags, process_options}

abbrev flag_code : CompilerFlag → ℕ
flag_code alternate_decorators = 0
flag_code compat = 1
flag_code use_data = 2
flag_code explicit_partial_context = 3
flag_code ignore_standalone = 4
flag_code known_helpers_only = 5
flag_code prevent_indent = 6
flag_code string_params = 7
flag_code track_ids = 8
flag_code strict = 9
flag_code assume_objects = 10
flag_code mustache_style_lambdas = 11

-- `flags & f`
abbrev pub has_flag : CompilerFlag → Flags → Bool
has_flag f [] = false
has_flag f (g ∷ flags) = flag_code f == flag_code g || has_flag f flags

abbrev pub option_name : CompilerFlag → Text
option_name alternate_decorators = lit "alternateDecorators"
option_name compat = lit "compat"
option_name use_data = lit "data"
option_name explicit_partial_context = lit "explicitPartialContext"
option_name ignore_standalone = lit "ignoreStandalone"
option_name known_helpers_only = lit "knownHelpersOnly"
option_name prevent_indent = lit "preventIndent"
option_name string_params = lit "stringParams"
option_name track_ids = lit "trackIds"
option_name strict = lit "strict"
option_name assume_objects = lit "assumeObjects"
option_name mustache_style_lambdas = lit "mustacheStyleLambdas"

-- The option is there, and is exactly `true`.
abbrev pub is_on : Option Zval → Bool
is_on (some is_true) = true
is_on _ = false

-- The option is there, and is neither `false` nor null.
abbrev pub is_given : Option Zval → Bool
is_given none = false
is_given (some is_false) = false
is_given (some null) = false
is_given (some v) = true

abbrev pub requested : Buckets → CompilerFlag → Bool
requested ht use_data = is_given (find (name (lit "data")) ht)
requested ht f = is_on (find (name (option_name f)) ht)

has_flag-or_flag :
    (ht : Buckets) (key : Text) (f g : CompilerFlag) (flags : Flags)
    → has_flag f (or_flag ht key g flags)
      ≡ ((flag_code f == flag_code g && is_on (find (name key) ht)) || has_flag f flags)
unfolding or_flag
has_flag-or_flag ht key f g flags = ground arith

has_flag-data_option :
    (ht : Buckets) (f : CompilerFlag) (flags : Flags)
    → has_flag f (data_option ht flags)
      ≡ ((flag_code f == 2 && is_given (find (name (lit "data")) ht)) || has_flag f flags)
unfolding data_option
has_flag-data_option ht f flags = ground arith

or-false : (b : Bool) → (b || false) ≡ b
or-false true = refl
or-false false = refl

has_flag-option_flags :
    (ht : Buckets) (f : CompilerFlag) → has_flag f (option_flags ht) ≡ requested ht f
unfolding option_flags
has_flag-option_flags ht use_data = simp (has_flag-or_flag, has_flag-data_option, or-false)
has_flag-option_flags ht _ = simp (has_flag-or_flag, has_flag-data_option, or-false)

-- The flags of the vm, if there is one.
abbrev pub flags_of : Option Vm → Flags → Flags
flags_of none flags = flags
flags_of (some vm) flags = vm.flags

-- With an array of options whose data, if any, can be converted, every flag is set exactly if it is
-- requested: `data` by a value that is neither `false` nor null, and every other option by `true`
-- itself; and the compiler and the vm, if there is one, have these flags.
pub has_flag-process_options :
    (compiler : Compiler) (vm : Option Vm) (ht : Buckets) (f : CompilerFlag) (p : Processed)
    → process_options compiler vm (some (array ht)) ≡ returns p
    → (has_flag f p.flags ≡ requested ht f)
      × (p.compiler.flags ≡ p.flags)
      × (flags_of p.vm p.flags ≡ p.flags)
unfolding process_options set_vm set_compiler
has_flag-process_options compiler none ht f p h =
    let flags : option_flags ht ≡ p.flags = ground arith in
    (rw (← flags) (has_flag-option_flags ht f), ground arith, ground arith)
has_flag-process_options compiler (some vm) ht f p h =
    let flags : option_flags ht ≡ p.flags = ground arith in
    (rw (← flags) (has_flag-option_flags ht f), ground arith, ground arith)

-- The options are refused only for data that cannot be converted, and never without a vm.
pub process_options-raises :
    (compiler : Compiler) (vm : Option Vm) (ht : Buckets) (x : LibError)
    → process_options compiler vm (some (array ht)) ≡ raises x
    → (v : Zval) × (find (name (lit "data")) ht ≡ some v)
      × (from_zval v Value.null ≡ raises x)
      × (is_some vm ≡ true)
unfolding process_options set_vm vm_data_option
process_options-raises compiler none ht x h = ground arith
process_options-raises compiler (some vm) ht x h =
    elim (Option-cases (find (name (lit "data")) ht)) [
      | inl e ↦ ground (arith, e)
      | inr (v, e) ↦ (v, e, ground (arith, e), refl)
    ]
