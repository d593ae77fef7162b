-- ===== src/Options/ArrayAccess.antt =====
-- The methods of src/options.c for ArrayAccess, and `lookupProperty`.
use php_handlebars.Base.{Bool, true, Text, lit}
use php_handlebars.Zend.{Zval}
use php_handlebars.Zend.Outcome.{Outcome, runtime_exception, throw_exception}
use php_handlebars.Zend.Engine.{Engine}
use php_handlebars.Utils.NameLookup.{name_lookup}
use php_handlebars.Options.{OptionsObj, StdHandlers}
use php_handlebars.Options.Properties.{object_read_property}

module _ {P : Type 0} (h : StdHandlers P) where
  -- `zend_read_property_ex` returns a pointer in every case, which is not NULL.
  unfoldable pub offset_exists : Text → OptionsObj P → Bool × OptionsObj P
  unfolding object_read_property
  offset_exists offset obj = let (prop, obj') = object_read_property h offset obj in (true, obj')

  unfoldable pub offset_get : Text → OptionsObj P → Zval × OptionsObj P
  unfolding object_read_property
  offset_get offset obj = object_read_property h offset obj

unfoldable pub offset_set : Outcome Zval
offset_set = throw_exception runtime_exception (lit "offsetSet is not implemented")

unfoldable pub offset_unset : Outcome Zval
offset_unset = throw_exception runtime_exception (lit "offsetUnset is not implemented")

unfoldable pub lookup_property : Engine → Zval → Zval → Outcome Zval
unfolding name_lookup
lookup_property e value field = name_lookup e value field
