-- ===== src/Classes/Options.antt =====
-- The table of methods of `Handlebars\Options` in src/options.c, built for PHP 8.1 or later.
use php_handlebars.Base.{false, List, [], ◌∷◌, lit}
use php_handlebars.Classes.ArgInfo.{
  mixed_type, string_type, bool_type, array_type, void_type, ArgInfo, Parameters, unparsed, parses,
  MethodEntry, arg_info, return_type_info, any, typed, nullable, method,
}

abbrev pub options_construct_arginfo : ArgInfo
options_construct_arginfo = arg_info 1 (nullable (lit "props") array_type ∷ [])

abbrev pub offset_exists_arginfo : ArgInfo
offset_exists_arginfo = return_type_info 1 bool_type false (typed (lit "key") mixed_type ∷ [])

abbrev pub offset_get_arginfo : ArgInfo
offset_get_arginfo = return_type_info 1 mixed_type false (typed (lit "key") mixed_type ∷ [])

abbrev pub offset_set_arginfo : ArgInfo
offset_set_arginfo =
    return_type_info 2 void_type false
      (typed (lit "key") mixed_type ∷ typed (lit "value") mixed_type ∷ [])

abbrev pub offset_unset_arginfo : ArgInfo
offset_unset_arginfo = return_type_info 1 void_type false (typed (lit "key") mixed_type ∷ [])

abbrev pub fn_arginfo : ArgInfo
fn_arginfo = arg_info 0 []

abbrev pub lookup_property_arginfo : ArgInfo
lookup_property_arginfo = arg_info 2 (any (lit "objOrArray") ∷ typed (lit "field") string_type ∷ [])

abbrev pub options_construct_parameters : Parameters
options_construct_parameters = parses 0 1

-- `php_handlebars_options_call`, for both `fn` and `inverse`
abbrev pub options_call_parameters : Parameters
options_call_parameters = parses 0 2

abbrev pub offset_exists_parameters : Parameters
offset_exists_parameters = parses 1 1

abbrev pub offset_get_parameters : Parameters
offset_get_parameters = parses 1 1

abbrev pub lookup_property_parameters : Parameters
lookup_property_parameters = parses 2 2

-- `HandlebarsOptions_methods`; offsetSet and offsetUnset throw whatever they are given.
abbrev pub options_methods : List MethodEntry
options_methods =
    method (lit "__construct") options_construct_arginfo options_construct_parameters
    ∷ method (lit "fn") fn_arginfo options_call_parameters
    ∷ method (lit "inverse") fn_arginfo options_call_parameters
    ∷ method (lit "offsetExists") offset_exists_arginfo offset_exists_parameters
    ∷ method (lit "offsetGet") offset_get_arginfo offset_get_parameters
    ∷ method (lit "offsetSet") offset_set_arginfo unparsed
    ∷ method (lit "offsetUnset") offset_unset_arginfo unparsed
    ∷ method (lit "lookupProperty") lookup_property_arginfo lookup_property_parameters
    ∷ []
