-- ===== src/Value/SendOptions.antt =====
-- The part of `handlebars_std_zval_call` of src/value.c that decides, under PHP 8, whether a helper is
-- given the options object, and puts its arguments together.
pub mod Slots
use php_handlebars.Base.{
  ℕ, zero, suc, ◌+◌, Bool, true, false, Option, none, some, List, [], ◌∷◌, ◌++◌, Text, lit, text_eq,
  length, ltb, get_elem?, map, if◌then◌else◌,
}
use php_handlebars.Zend.{Zval}
use php_handlebars.Value.{Value}
use php_handlebars.Value.ToZval.{to_zval}

-- The type of a parameter: none, built-in types only, or one class, nullable or not. Of a list of types
-- the source reads the list's address as a name, which is not modelled.
pub data ParameterType : Type 0 where
  untyped only_mask : ParameterType
  class_name : Text → ParameterType

-- `fptr->common`: a closure's function, or `__invoke` of the class, if it has one.
pub record Callee : Type 0 where
  pub is_closure : Bool
  pub parameters : Option (List ParameterType)

unfoldable pub type_decides : ParameterType → Bool → Bool
type_decides untyped send = send
type_decides only_mask send = false
type_decides (class_name c) send = if text_eq c (lit "Handlebars\\Options") then true else send

-- `if (argc < num_args)`: the parameter behind the arguments
unfoldable pub send_options : Callee → ℕ → Bool
unfolding type_decides
send_options f argc = elim f.parameters [
  | none ↦ f.is_closure
  | some parameters ↦ elim (get_elem? parameters argc) [
    | none ↦ f.is_closure
    | some t ↦ type_decides t f.is_closure
  ]
]

-- `z_args`
unfoldable pub call_arguments : Callee → List Value → Zval → List Zval
unfolding send_options
call_arguments f args options =
    if send_options f (length args) then map to_zval args ++ options ∷ [] else map to_zval args
