-- ===== src/Implementation.antt =====
-- src/impl.c: the class `Handlebars\BaseImpl`, whose four protected properties hold what an
-- implementation works with. Its setters take objects that PHP has checked against their class.
use php_handlebars.Base.{ℕ, Option, none, some, Text, lit}
use php_handlebars.Zend.{Zval, null}
use php_handlebars.Zend.Outcome.{Outcome, ok, aborted}

-- The declared properties.
pub record Impl : Type 0 where
  pub logger : Zval
  pub decorators : Zval
  pub helpers : Zval
  pub partials : Zval

pub data Property : Type 0 where
  logger_property decorators_property helpers_property partials_property : Property

-- What `zend_declare_property_ex` gives every object.
abbrev pub default_impl : Impl
default_impl = record { logger = null; decorators = null; helpers = null; partials = null }

-- `zend_read_property_ex` and `zend_update_property_ex`
unfoldable pub read_property : Property → Impl → Zval
read_property logger_property this = this.logger
read_property decorators_property this = this.decorators
read_property helpers_property this = this.helpers
read_property partials_property this = this.partials

unfoldable pub update_property : Property → Zval → Impl → Impl
update_property logger_property v this = record this { logger = v }
update_property decorators_property v this = record this { decorators = v }
update_property helpers_property v this = record this { helpers = v }
update_property partials_property v this = record this { partials = v }

-- `php_handlebars_impl_getter`, and the methods over it
unfoldable pub impl_getter : Property → Impl → Zval
unfolding read_property
impl_getter p this = read_property p this

unfoldable pub get_helpers : Impl → Zval
unfolding impl_getter
get_helpers this = impl_getter helpers_property this

unfoldable pub get_partials : Impl → Zval
unfolding impl_getter
get_partials this = impl_getter partials_property this

unfoldable pub get_decorators : Impl → Zval
unfolding impl_getter
get_decorators this = impl_getter decorators_property this

unfoldable pub get_logger : Impl → Zval
unfolding impl_getter
get_logger this = impl_getter logger_property this

-- The setters return the object itself, given by its handle, too.
unfoldable pub set_helpers : Zval → Impl → Impl
unfolding update_property
set_helpers helpers this = update_property helpers_property helpers this

unfoldable pub set_partials : Zval → Impl → Impl
unfolding update_property
set_partials partials this = update_property partials_property partials this

unfoldable pub set_decorators : Zval → Impl → Impl
unfolding update_property
set_decorators decorators this = update_property decorators_property decorators this

-- The table of the classes and the lower case of a name, both of PHP's.
pub record Classes : Type 0 where
  pub tolower : Text → Text
  pub class_table : Text → Option ℕ

-- A class that is not found is a fatal error.
unfoldable pub lookup_class : Classes → Text → Outcome ℕ
lookup_class c name = elim (c.class_table (c.tolower name)) [ none ↦ aborted | some ce ↦ ok ce ]

-- The logger's interface must be there before its argument is read.
unfoldable pub set_logger : Classes → Zval → Impl → Outcome Impl
unfolding lookup_class update_property
set_logger c logger this = elim (lookup_class c (lit "Psr\\Log\\LoggerInterface")) [
  | ok ce ↦ ok (update_property logger_property logger this)
  | Outcome.throw e ↦ Outcome.throw e
  | aborted ↦ aborted
]
