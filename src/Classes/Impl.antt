-- ===== src/Classes/Impl.antt =====
-- The tables of methods of `Handlebars\Impl` and `Handlebars\BaseImpl` in src/impl.c, with the
-- argument information of php_handlebars.h.
use php_handlebars.Base.{true, false, List, [], ◌∷◌, lit}
use php_handlebars.Classes.ArgInfo.{
  TypeHint, string_type, array_type, object_type, ArgInfo, Parameters, unparsed, parses,
  MethodEntry, return_obj_info, return_type_info, any, typed, nullable, method, abstract_method,
}

abbrev pub get_logger_arginfo : ArgInfo
get_logger_arginfo = return_obj_info 0 (lit "Psr\\Logger\\LoggerInterface") true []

abbrev pub get_decorators_arginfo : ArgInfo
get_decorators_arginfo = return_obj_info 0 (lit "Handlebars\\Registry") true []

abbrev pub get_helpers_arginfo : ArgInfo
get_helpers_arginfo = return_obj_info 0 (lit "Handlebars\\Registry") true []

abbrev pub get_partials_arginfo : ArgInfo
get_partials_arginfo = return_obj_info 0 (lit "Handlebars\\Registry") true []

abbrev pub registry_type : TypeHint
registry_type = object_type (lit "Handlebars\\Registry")

abbrev pub set_helpers_arginfo : ArgInfo
set_helpers_arginfo =
    return_obj_info 1 (lit "Handlebars\\Impl") false (typed (lit "helpers") registry_type ∷ [])

abbrev pub set_partials_arginfo : ArgInfo
set_partials_arginfo =
    return_obj_info 1 (lit "Handlebars\\Impl") false (typed (lit "partials") registry_type ∷ [])

abbrev pub set_decorators_arginfo : ArgInfo
set_decorators_arginfo =
    return_obj_info 1 (lit "Handlebars\\Impl") false (typed (lit "decorators") registry_type ∷ [])

abbrev pub set_logger_arginfo : ArgInfo
set_logger_arginfo =
    return_obj_info 1 (lit "Handlebars\\Impl") false
      (typed (lit "logger") (object_type (lit "Psr\\Log\\LoggerInterface")) ∷ [])

abbrev pub render_arginfo : ArgInfo
render_arginfo = return_type_info 1 string_type false (
    typed (lit "tmpl") string_type ∷ any (lit "context") ∷ nullable (lit "options") array_type ∷ [])

abbrev pub render_file_arginfo : ArgInfo
render_file_arginfo = return_type_info 1 string_type false (
    typed (lit "filename") string_type
    ∷ any (lit "context")
    ∷ nullable (lit "options") array_type
    ∷ [])

-- `HandlebarsImpl_methods`
abbrev pub impl_methods : List MethodEntry
impl_methods =
    abstract_method (lit "getHelpers") get_helpers_arginfo
    ∷ abstract_method (lit "getPartials") get_partials_arginfo
    ∷ abstract_method (lit "getDecorators") get_decorators_arginfo
    ∷ abstract_method (lit "getLogger") get_logger_arginfo
    ∷ abstract_method (lit "setHelpers") set_helpers_arginfo
    ∷ abstract_method (lit "setPartials") set_partials_arginfo
    ∷ abstract_method (lit "setDecorators") set_decorators_arginfo
    ∷ abstract_method (lit "setLogger") set_logger_arginfo
    ∷ abstract_method (lit "render") render_arginfo
    ∷ abstract_method (lit "renderFile") render_file_arginfo
    ∷ []

-- The getters parse nothing.
abbrev pub set_helpers_parameters : Parameters
set_helpers_parameters = parses 1 1

abbrev pub set_partials_parameters : Parameters
set_partials_parameters = parses 1 1

abbrev pub set_decorators_parameters : Parameters
set_decorators_parameters = parses 1 1

abbrev pub set_logger_parameters : Parameters
set_logger_parameters = parses 1 1

-- `HandlebarsBaseImpl_methods`
abbrev pub base_impl_methods : List MethodEntry
base_impl_methods =
    method (lit "getHelpers") get_helpers_arginfo unparsed
    ∷ method (lit "getPartials") get_partials_arginfo unparsed
    ∷ method (lit "getDecorators") get_decorators_arginfo unparsed
    ∷ method (lit "getLogger") get_logger_arginfo unparsed
    ∷ method (lit "setHelpers") set_helpers_arginfo set_helpers_parameters
    ∷ method (lit "setPartials") set_partials_arginfo set_partials_parameters
    ∷ method (lit "setDecorators") set_decorators_arginfo set_decorators_parameters
    ∷ method (lit "setLogger") set_logger_arginfo set_logger_parameters
    ∷ []
