-- ===== src/Classes/ArgInfo.antt =====
-- The argument information of a method, with the macros of php_handlebars.h that begin it, and the
-- entries of the tables of methods.
use php_handlebars.Base.{ℕ, Bool, true, false, Option, none, some, List, Text}

-- `IS_STRING` and so on, and the class of an object.
pub data TypeHint : Type 0 where
  untyped mixed_type string_type long_type bool_type array_type void_type : TypeHint
  object_type : Text → TypeHint

-- `ZEND_ARG_INFO`, `ZEND_ARG_TYPE_INFO`, `ZEND_ARG_ARRAY_INFO`, `ZEND_ARG_OBJ_INFO`
pub record Arg : Type 0 where
  pub name : Text
  pub type : TypeHint
  pub allow_null : Bool

pub record Returned : Type 0 where
  pub type : TypeHint
  pub allow_null : Bool

pub record ArgInfo : Type 0 where
  pub required : ℕ
  pub returned : Option Returned
  pub args : List Arg

-- What `ZEND_PARSE_PARAMETERS_START` lets through; a body without it takes any number.
pub data Parameters : Type 0 where
  unparsed : Parameters
  parses : ℕ → ℕ → Parameters

pub record MethodEntry : Type 0 where
  pub name : Text
  pub arginfo : ArgInfo
  pub parameters : Parameters
  pub is_static : Bool
  pub is_abstract : Bool

-- `ZEND_BEGIN_ARG_INFO_EX`
abbrev pub arg_info : ℕ → List Arg → ArgInfo
arg_info n args = record { required = n; returned = none; args = args }

-- `PHP_HANDLEBARS_BEGIN_ARG_INFO`
abbrev pub begin_arg_info : ℕ → List Arg → ArgInfo
begin_arg_info n args = arg_info n args

-- `PHP_HANDLEBARS_BEGIN_ARG_WITH_RETURN_OBJ_INFO` and `PHP_HANDLEBARS_BEGIN_ARG_WITH_RETURN_TYPE_INFO`
abbrev pub return_obj_info : ℕ → Text → Bool → List Arg → ArgInfo
return_obj_info n class allow_null args = record {
  required = n;
  returned = some (record { type = object_type class; allow_null = allow_null });
  args = args;
}

abbrev pub return_type_info : ℕ → TypeHint → Bool → List Arg → ArgInfo
return_type_info n type allow_null args = record {
  required = n;
  returned = some (record { type = type; allow_null = allow_null });
  args = args;
}

abbrev pub any : Text → Arg
any name = record { name = name; type = untyped; allow_null = true }

abbrev pub typed : Text → TypeHint → Arg
typed name type = record { name = name; type = type; allow_null = false }

abbrev pub nullable : Text → TypeHint → Arg
nullable name type = record { name = name; type = type; allow_null = true }

-- `PHP_ME` and `PHP_ABSTRACT_ME`
abbrev pub method : Text → ArgInfo → Parameters → MethodEntry
method name arginfo parameters = record {
  name = name;
  arginfo = arginfo;
  parameters = parameters;
  is_static = false;
  is_abstract = false;
}

abbrev pub static_method : Text → ArgInfo → Parameters → MethodEntry
static_method name arginfo parameters = record (method name arginfo parameters) { is_static = true }

abbrev pub abstract_method : Text → ArgInfo → MethodEntry
abstract_method name arginfo = record (method name arginfo unparsed) { is_abstract = true }
