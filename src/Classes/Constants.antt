-- ===== src/Classes/Constants.antt =====
-- The class constants of `Handlebars\Compiler` in src/compiler.c, and the enumerators of libhandlebars
-- that give them their values.
use php_handlebars.Base.{
  ℕ, ◌+◌, ◌≡◌, refl, Bool, true, ◌&&◌, ◌||◌, leb, List, [], ◌∷◌, ◌++◌, map, drop, Text, lit,
  text_eq, if◌then◌else◌,
}

-- `zend_declare_class_constant_long`: the constant's name, and the enumerator's.
abbrev pub compiler_constants : List (Text × Text)
compiler_constants =
    (lit "NONE", lit "handlebars_compiler_flag_none")
    ∷ (lit "USE_DEPTHS", lit "handlebars_compiler_flag_use_depths")
    ∷ (lit "STRING_PARAMS", lit "handlebars_compiler_flag_string_params")
    ∷ (lit "TRACK_IDS", lit "handlebars_compiler_flag_track_ids")
    ∷ (lit "NO_ESCAPE", lit "handlebars_compiler_flag_no_escape")
    ∷ (lit "KNOWN_HELPERS_ONLY", lit "handlebars_compiler_flag_known_helpers_only")
    ∷ (lit "PREVENT_INDENT", lit "handlebars_compiler_flag_prevent_indent")
    ∷ (lit "EXPLICIT_PARTIAL_CONTEXT", lit "handlebars_compiler_flag_explicit_partial_context")
    ∷ (lit "IGNORE_STANDALONE", lit "handlebars_compiler_flag_ignore_standalone")
    ∷ (lit "ALTERNATE_DECORATORS", lit "handlebars_compiler_flag_alternate_decorators")
    ∷ (lit "STRICT", lit "handlebars_compiler_flag_strict")
    ∷ (lit "ASSUME_OBJECTS", lit "handlebars_compiler_flag_assume_objects")
    ∷ (lit "MUSTACHE_STYLE_LAMBDAS", lit "handlebars_compiler_flag_mustache_style_lambdas")
    ∷ (lit "COMPAT", lit "handlebars_compiler_flag_compat")
    ∷ (lit "ALL", lit "handlebars_compiler_flag_all")
    ∷ (lit "USE_PARTIAL", lit "handlebars_compiler_result_flag_use_partial")
    ∷ (lit "IS_SIMPLE", lit "handlebars_compiler_result_flag_is_simple")
    ∷ (lit "USE_DECORATORS", lit "handlebars_compiler_result_flag_use_decorators")
    ∷ (lit "RESULT_ALL", lit "handlebars_compiler_result_flag_all")
    ∷ []

-- The value of each constant, by what libhandlebars gives the enumerators.
unfoldable pub constant_values : (Text → ℕ) → List (Text × Text) → List (Text × ℕ)
constant_values value [] = []
constant_values value ((name, enumerator) ∷ l) = (name, value enumerator) ∷ constant_values value l

abbrev lower : ℕ → ℕ
lower c = if leb 65 c && leb c 90 then c + 32 else c

-- The enumerator that a constant is named after.
abbrev named_after : Text → Text → Bool
named_after name enumerator =
    text_eq enumerator (lit "handlebars_compiler_flag_" ++ map lower name)
    || (text_eq enumerator (lit "handlebars_compiler_result_flag_" ++ map lower name)
        || text_eq enumerator (lit "handlebars_compiler_result_flag_" ++ drop 7 (map lower name)))

abbrev all_named : List (Text × Text) → Bool
all_named [] = true
all_named ((name, enumerator) ∷ l) = named_after name enumerator && all_named l

-- Each constant has the value of the enumerator that is named after it.
compiler_constants_named : all_named compiler_constants ≡ true
compiler_constants_named = refl
