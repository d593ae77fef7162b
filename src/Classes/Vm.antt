-- ===== src/Classes/Vm.antt =====
-- The table of methods of `Handlebars\VM` in src/vm.c.
use php_handlebars.Base.{false, List, [], ◌∷◌, lit}
use php_handlebars.Classes.ArgInfo.{
  string_type, array_type, ArgInfo, Parameters, parses, MethodEntry, arg_info, return_type_info,
  any, typed, nullable, method,
}
use php_handlebars.Classes.Impl.{
  set_helpers_arginfo, set_partials_arginfo, render_arginfo, render_file_arginfo,
}

abbrev pub vm_construct_arginfo : ArgInfo
vm_construct_arginfo = arg_info 1 (nullable (lit "options") array_type ∷ [])

abbrev pub vm_compile_arginfo : ArgInfo
vm_compile_arginfo =
    return_type_info 1 string_type false
      (typed (lit "tmpl") string_type ∷ nullable (lit "options") array_type ∷ [])

abbrev pub render_from_binary_string_arginfo : ArgInfo
render_from_binary_string_arginfo = return_type_info 1 string_type false (
    typed (lit "binaryString") string_type
    ∷ any (lit "context")
    ∷ nullable (lit "options") array_type
    ∷ [])

abbrev pub vm_set_helpers_parameters : Parameters
vm_set_helpers_parameters = parses 1 1

abbrev pub vm_set_partials_parameters : Parameters
vm_set_partials_parameters = parses 1 1

abbrev pub vm_construct_parameters : Parameters
vm_construct_parameters = parses 0 1

abbrev pub vm_compile_parameters : Parameters
vm_compile_parameters = parses 1 2

-- `render`, which the three methods share
abbrev pub render_parameters : Parameters
render_parameters = parses 1 3

-- `HandlebarsVM_methods`
abbrev pub vm_methods : List MethodEntry
vm_methods =
    method (lit "__construct") vm_construct_arginfo vm_construct_parameters
    ∷ method (lit "setHelpers") set_helpers_arginfo vm_set_helpers_parameters
    ∷ method (lit "setPartials") set_partials_arginfo vm_set_partials_parameters
    ∷ method (lit "compile") vm_compile_arginfo vm_compile_parameters
    ∷ method (lit "render") render_arginfo render_parameters
    ∷ method (lit "renderFile") render_file_arginfo render_parameters
    ∷ method (lit "renderFromBinaryString") render_from_binary_string_arginfo render_parameters
    ∷ []
