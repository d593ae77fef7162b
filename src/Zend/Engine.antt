-- ===== src/Zend/Engine.antt =====
-- What the extension asks of the PHP engine about values that it does not own: the handlers of an
-- object, conversions to string, and functions of the standard extensions. None of this code is in
-- the repository, so it is a parameter of the model.
use php_handlebars.Base.{ℕ, Bool, Option, Text}
use php_handlebars.Zend.{ℤ, Zval, Buckets}

-- The classes that `instanceof_function` is called with.
pub data ClassEntry : Type 0 where
  safe_string array_access traversable countable closure : ClassEntry

-- The flags of `php_escape_html_entities_ex`.
pub data Quotes : Type 0 where
  ent_quotes ent_compat : Quotes

pub record Engine : Type 0 where
  -- `assert` is compiled in (a debug build of PHP)
  pub asserts : Bool
  -- `instanceof_function(Z_OBJCE_P(zv), ce)`
  pub instance_of : ℕ → ClassEntry → Bool
  -- `zend_hash_str_exists(&ce->function_table, "__tostring", ...)`
  pub has_tostring : ℕ → Bool
  -- `zend_is_callable_ex` of an object, and of the pair of an object and a method's name
  pub is_callable_object : ℕ → Bool
  pub is_callable_method : ℕ → Text → Bool
  -- `zend_create_fake_closure` for such a pair
  pub fake_closure : ℕ → Text → Zval
  -- the object's `has_dimension` and `read_dimension` handlers, at a string offset
  pub has_dimension : ℕ → Text → Bool
  pub read_dimension : ℕ → Text → Option Zval
  -- `zend_read_property_ex`
  pub read_property : ℕ → Text → Option Zval
  -- the `get_properties` handler, if the object has one
  pub get_properties : ℕ → Option Buckets
  -- `count()` of a countable object, as a long; none if the call returned no value
  pub count_method : ℕ → Option ℤ
  -- `convert_to_string`
  pub convert_to_string : Zval → Text
  -- `php_implode`, `php_array_merge` into an empty array, `php_escape_html_entities_ex` in UTF-8
  pub implode : Text → Buckets → Text
  pub array_merge : Buckets → Buckets → Buckets
  pub escape_html : Quotes → Text → Text
