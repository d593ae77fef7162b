-- ===== src/Classes/Utils.antt =====
-- The tables of methods of `Handlebars\Utils` in src/utils.c and `Handlebars\SafeString` in
-- src/safe_string.c.
use php_handlebars.Base.{false, List, [], ◌∷◌, lit}
use php_handlebars.Classes.ArgInfo.{
  string_type, bool_type, array_type, ArgInfo, Parameters, unparsed, parses, MethodEntry, arg_info,
  begin_arg_info, return_type_info, any, typed, method, static_method,
}

abbrev pub append_context_path_arginfo : ArgInfo
append_context_path_arginfo =
    return_type_info 2 string_type false
      (any (lit "contextPath") ∷ typed (lit "id") string_type ∷ [])

abbrev pub create_frame_arginfo : ArgInfo
create_frame_arginfo = arg_info 2 (any (lit "value") ∷ [])

abbrev pub name_lookup_arginfo : ArgInfo
name_lookup_arginfo = arg_info 2 (any (lit "objOrArray") ∷ typed (lit "field") string_type ∷ [])

abbrev pub indent_arginfo : ArgInfo
indent_arginfo =
    return_type_info 2 string_type false
      (typed (lit "str") string_type ∷ typed (lit "indent") string_type ∷ [])

abbrev pub is_callable_arginfo : ArgInfo
is_callable_arginfo = return_type_info 1 bool_type false (any (lit "name") ∷ [])

abbrev pub is_int_array_arginfo : ArgInfo
is_int_array_arginfo = return_type_info 1 bool_type false (typed (lit "arr") array_type ∷ [])

abbrev pub expression_arginfo : ArgInfo
expression_arginfo = return_type_info 1 string_type false (any (lit "value") ∷ [])

abbrev pub append_context_path_parameters : Parameters
append_context_path_parameters = parses 2 2

abbrev pub create_frame_parameters : Parameters
create_frame_parameters = parses 1 1

abbrev pub name_lookup_parameters : Parameters
name_lookup_parameters = parses 2 2

abbrev pub indent_parameters : Parameters
indent_parameters = parses 2 2

abbrev pub is_callable_parameters : Parameters
is_callable_parameters = parses 1 1

abbrev pub is_int_array_parameters : Parameters
is_int_array_parameters = parses 1 1

abbrev pub expression_parameters : Parameters
expression_parameters = parses 1 1

abbrev pub escape_expression_parameters : Parameters
escape_expression_parameters = parses 1 1

abbrev pub escape_expression_compat_parameters : Parameters
escape_expression_compat_parameters = parses 1 1

-- `HandlebarsUtils_methods`
abbrev pub utils_methods : List MethodEntry
utils_methods =
    static_method (lit "appendContextPath") append_context_path_arginfo
      append_context_path_parameters
    ∷ static_method (lit "createFrame") create_frame_arginfo create_frame_parameters
    ∷ static_method (lit "nameLookup") name_lookup_arginfo name_lookup_parameters
    ∷ static_method (lit "indent") indent_arginfo indent_parameters
    ∷ static_method (lit "isCallable") is_callable_arginfo is_callable_parameters
    ∷ static_method (lit "isIntArray") is_int_array_arginfo is_int_array_parameters
    ∷ static_method (lit "expression") expression_arginfo expression_parameters
    ∷ static_method (lit "escapeExpression") expression_arginfo escape_expression_parameters
    ∷ static_method (lit "escapeExpressionCompat") expression_arginfo
        escape_expression_compat_parameters
    ∷ []

abbrev pub safe_string_construct_arginfo : ArgInfo
safe_string_construct_arginfo = begin_arg_info 1 (typed (lit "value") string_type ∷ [])

abbrev pub to_string_arginfo : ArgInfo
to_string_arginfo = return_type_info 0 string_type false []

abbrev pub safe_string_construct_parameters : Parameters
safe_string_construct_parameters = parses 1 1

-- `HandlebarsSafeString_methods`
abbrev pub safe_string_methods : List MethodEntry
safe_string_methods =
    method (lit "__construct") safe_string_construct_arginfo safe_string_construct_parameters
    ∷ method (lit "__toString") to_string_arginfo unparsed
    ∷ []
