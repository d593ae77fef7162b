-- ===== src/SafeString.antt =====
-- src/safe_string.c: the class `Handlebars\SafeString`, with one protected property.
use php_handlebars.Base.{◌≡◌, refl, Text}
use php_handlebars.Zend.{Zval, undef, string}

-- The typed property `value`, not written before the constructor has run.
pub record SafeString : Type 0 where
  pub content : Zval

abbrev pub default_safe_string : SafeString
default_safe_string = record { content = undef }

-- `Handlebars\SafeString::__construct`
unfoldable pub construct : Text → SafeString → SafeString
construct s this = record this { content = string s }

-- `Handlebars\SafeString::__toString`
unfoldable pub to_string : SafeString → Zval
to_string this = this.content

-- A safe string converts back to the string that it was last constructed with, byte for byte.
pub to_string-construct :
    (s t : Text) (this : SafeString) → to_string (construct s (construct t this)) ≡ string s
unfolding to_string construct
to_string-construct s t this = refl
