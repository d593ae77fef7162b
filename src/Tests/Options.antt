-- ===== src/Tests/Options.antt =====
-- The theorems on src/options.c.
use php_handlebars.Base.{
  ◌≡◌, refl, true, not, ◌&&◌, is_some, none, some, Text, lit, text_eq, text_eq_refl, text_eq_iff,
  arith, if◌then◌else◌,
}
use php_handlebars.Zend.{pos, negsuc, Zval, Buckets, end, bucket, name, null, long}
use php_handlebars.Zend.Outcome.{ok}
use php_handlebars.Libhandlebars.{returns}
use php_handlebars.Value.{Value, no_fields}
use php_handlebars.Options.Declared.{is_declared, prop_handler-declared}
use php_handlebars.Options.{HandlebarsOptions, OptionsObj, StdHandlers, IsStandard, obj_create}
use php_handlebars.Options.Properties.{prop_handler, object_read_property, construct}
use php_handlebars.Options.Properties.Lazy.{visible, visible-object_read_property}
use php_handlebars.Options.Properties.Construct.{read-construct}
use php_handlebars.Options.Call.{Callees, to_php, options_call}
use php_handlebars.Options.Call.Branches.{options_call-construct}

-- Properties as a function of their names.
abbrev Props : Type 0
Props = Text → Zval

abbrev set_prop : Text → Zval → Props → Props
set_prop k v p j = if text_eq j k then v else p j

abbrev test_handlers : StdHandlers Props
test_handlers = record {
  read_property = λ k p. p k;
  write_property = set_prop;
  has_property = λ k check_empty p. true;
}

test_handlers-IsStandard : IsStandard test_handlers
test_handlers-IsStandard = record {
  read-write = λ k v p plain. rw (text_eq_refl k) refl;
  read-write_other = λ j k v p other. ground (arith, text_eq_iff j k, other);
}

abbrev no_props : Props
no_props k = null

abbrev block_options : HandlebarsOptions
block_options = record {
  name = some (lit "each");
  program = pos 2;
  inverse = negsuc 0;
  scope = some (Value.integer (pos 7));
  data_value = none;
  hash = some (Value.map no_fields);
}

abbrev block_object : OptionsObj Props
block_object = record { options = block_options; vm = true; dtor_ctx = true; std = no_props }

visible-object_read_property_example :
    visible test_handlers
      (lit "hash")
      (object_read_property test_handlers (lit "scope") block_object).1
    ≡ visible test_handlers (lit "hash") block_object
visible-object_read_property_example =
    visible-object_read_property test_handlers (lit "hash") (lit "scope") block_object
      test_handlers-IsStandard refl

-- `new Options(["fn" => $o])` with the object 5
abbrev fn_array : Buckets
fn_array = bucket (name (lit "fn")) (Zval.object 5) end

read-construct_example :
    test_handlers.read_property
      (lit "fn")
      (construct test_handlers (some fn_array) (obj_create no_props)).std
    ≡ Zval.object 5
read-construct_example =
    read-construct test_handlers fn_array (lit "fn") (obj_create no_props) test_handlers-IsStandard
      (refl, refl, tt)

abbrev test_callees : Callees
test_callees = record {
  call_user_function = λ o args. ok (long (pos o));
  execute_program = λ guid context block_data block_params. returns (lit "out");
}

options_call-construct_example :
    options_call test_callees test_handlers true
      (lit "prev")
      none
      none
      (construct test_handlers (some fn_array) (obj_create no_props))
    ≡ to_php (ok (long (pos 5))) (lit "prev")
options_call-construct_example =
    options_call-construct test_handlers test_callees (lit "prev") none none fn_array 5 no_props
      test_handlers-IsStandard (refl, refl, tt) refl

prop_handler-declared_example :
    (is_some (prop_handler (lit "program")) && not (is_declared (lit "program")))
    ≡ text_eq (lit "program") (lit "program")
prop_handler-declared_example = prop_handler-declared (lit "program")
