-- ===== src/Value/SendOptions/Slots.antt =====
-- Which helpers src/value.c gives the options object, under PHP 8.
use php_handlebars.Base.{
  ℕ, ◌≡◌, ◌↔◌, true, false, Option, none, some, List, Text, lit, text_eq_iff, get_elem?, arith,
}
use php_handlebars.Value.SendOptions.{
  ParameterType, untyped, only_mask, class_name, type_decides, send_options,
}

abbrev pub options_class : Text
options_class = lit "Handlebars\\Options"

invoke_slot :
    (o : Option ParameterType)
    → ((elim o [ none ↦ false | some t ↦ type_decides t false ]) ≡ true)
      ↔ (o ≡ some (class_name options_class))
unfolding type_decides
invoke_slot none = ground arith
invoke_slot (some untyped) = ground arith
invoke_slot (some only_mask) = ground arith
invoke_slot (some (class_name c)) = ground (arith, text_eq_iff c options_class)

send_options-invoke_iff :
    (parameters : List ParameterType) (argc : ℕ)
    → (send_options (record { is_closure = false; parameters = some parameters }) argc ≡ true)
      ↔ (get_elem? parameters argc ≡ some (class_name options_class))
unfolding send_options
send_options-invoke_iff parameters argc = invoke_slot (get_elem? parameters argc)

closure_slot :
    (o : Option ParameterType)
    → ((elim o [ none ↦ true | some t ↦ type_decides t true ]) ≡ false) ↔ (o ≡ some only_mask)
unfolding type_decides
closure_slot none = ground arith
closure_slot (some untyped) = ground arith
closure_slot (some only_mask) = ground arith
closure_slot (some (class_name c)) = ground arith

send_options-closure_iff :
    (parameters : List ParameterType) (argc : ℕ)
    → (send_options (record { is_closure = true; parameters = some parameters }) argc ≡ false)
      ↔ (get_elem? parameters argc ≡ some only_mask)
unfolding send_options
send_options-closure_iff parameters argc = closure_slot (get_elem? parameters argc)

-- An object with `__invoke` is given the options exactly when the parameter behind the arguments is
-- declared with the class Handlebars\Options; a closure is given them unless this parameter is declared
-- with built-in types only, so that a parameter of any class takes them.
pub send_options_iff :
    (parameters : List ParameterType) (argc : ℕ)
    → ((send_options (record { is_closure = false; parameters = some parameters }) argc ≡ true)
        ↔ (get_elem? parameters argc ≡ some (class_name options_class)))
      × ((send_options (record { is_closure = true; parameters = some parameters }) argc ≡ false)
          ↔ (get_elem? parameters argc ≡ some only_mask))
send_options_iff parameters argc =
    (send_options-invoke_iff parameters argc, send_options-closure_iff parameters argc)
