-- ===== src/Tests/Value.antt =====
-- The theorems on src/value.c.
use php_handlebars.Base.{
  Text, Option, ◌≡◌, ◌↔◌, refl, Bool, true, false, none, some, [], ◌∷◌, lit, get_elem?, arith, ℕ,
  zero, suc, ◌-◌, ◌<◌,
}
use php_handlebars.Zend.{
  Zval, undef, pos, Buckets, Key, end, bucket, index, is_true, null, long, array,
}
use php_handlebars.Zend.Hash.{find}
use php_handlebars.Zend.Outcome.{Outcome, ok, runtime_exception}
use php_handlebars.Libhandlebars.{returns, php_handlebars_try}
use php_handlebars.Utils.IntArray.{is_int_array, is_callable}
use php_handlebars.Value.{
  unknown, known, HandlebarsZval, Value, Items, no_items, item, Fields, no_fields, field, map,
  integer, true_value,
}
use php_handlebars.Value.FromZval.{from_zval}
use php_handlebars.Value.ToZval.{to_zval}
use php_handlebars.Value.ToZval.RoundTrip.{defined, to_zval-from_zval}
use php_handlebars.Value.ToZval.MapFields.{last_field, to_zval-map}
use php_handlebars.Value.Find.{array_type, zval_type, map_find, convert_entry}
use php_handlebars.Value.Find.Memoised.{IsMemoised, seen_type, zval_type-IsMemoised}
use php_handlebars.Value.Find.Offset.{map_find-offset}
use php_handlebars.Value.Iterator.{ObjectIterator, Iterator, over_array, over_object, over_nothing}
use php_handlebars.Value.Iterator.Loop.{carried, loop, loop-carried}
use php_handlebars.Value.Intern.{Memory}
use php_handlebars.Value.Iterator.Ends.{IsFinite, ends, ends-finite}
use php_handlebars.Value.SendOptions.{untyped, class_name, only_mask, send_options}
use php_handlebars.Value.SendOptions.Slots.{options_class, send_options_iff}
use php_handlebars.Value.Call.{Calls, zval_call}
use php_handlebars.Value.Call.Pending.{zval_call-pending}
use php_handlebars.Zend.Engine.{Engine}
use php_handlebars.Tests.Fixtures.{test_engine}

abbrev is_positive : ℕ → Bool
is_positive zero = false
is_positive (suc n) = true

abbrev predecessor : ℕ → ℕ
predecessor zero = 0
predecessor (suc n) = n

-- An object that counts from its state down to 0.
abbrev countdown : ObjectIterator ℕ
countdown = record {
  rewind = none;
  valid = λ s. (is_positive s, s);
  get_current_data = λ s. (long (pos s), s);
  get_current_key = none;
  move_forward = predecessor;
  exception = λ s. false;
  release = λ s. 0;
}

abbrev list_of_two : Buckets
list_of_two = bucket (index 0) (long (pos 1)) (bucket (index 1) is_true end)

abbrev over_list : Iterator ℕ
over_list = record {
  next = over_array list_of_two;
  key = none;
  position = 0;
  cur = Value.null;
  engine = 0;
}

loop-carried_example : loop countdown 3 over_list ≡ carried list_of_two Value.null
loop-carried_example = loop-carried countdown list_of_two 3 over_list (omega arith) refl

abbrev with_null : Buckets
with_null = bucket (index 0) (long (pos 1)) (bucket (index 1) null end)

abbrev over_with_null : Iterator ℕ
over_with_null = record over_list { next = over_array with_null }

abbrev counting : ℕ → Iterator ℕ
counting s = record { next = over_object; key = none; position = 0; cur = Value.null; engine = s }

abbrev counted : Iterator ℕ
counted = record { next = over_nothing; key = none; position = 0; cur = Value.null; engine = 0 }

abbrev counted_once : Iterator ℕ
counted_once = record {
  next = over_object;
  key = none;
  position = 1;
  cur = integer (pos 2);
  engine = 1;
}

to_zval-from_zval_example : to_zval (integer (pos 7)) ≡ defined (long (pos 7))
unfolding from_zval
to_zval-from_zval_example = to_zval-from_zval (long (pos 7)) (integer (pos 7)) refl

abbrev two_items : Items
two_items = item true_value (item (integer (pos 7)) no_items)

abbrev two_fields : Fields
two_fields = field (lit "a") true_value (field (lit "a") (integer (pos 7)) no_fields)

to_zval-map_example :
    (b : Buckets) × (to_zval (map two_fields) ≡ array b)
    × ((k : Key) → find k b ≡ last_field k two_fields)
to_zval-map_example = to_zval-map two_fields

abbrev zval_of : Buckets → HandlebarsZval
zval_of b = record { callable = unknown; int_array = unknown; intern = array b }

abbrev typed_list : HandlebarsZval
typed_list = record (zval_of list_of_two) { int_array = known true }

zval_type-IsMemoised_example :
    (seen_type test_engine (array list_of_two) ≡ ok array_type)
    × IsMemoised test_engine typed_list
    × (array list_of_two ≡ array list_of_two)
    × (zval_type test_engine typed_list ≡ ok (array_type, typed_list))
unfolding zval_type is_int_array
zval_type-IsMemoised_example =
    zval_type-IsMemoised test_engine (zval_of list_of_two) typed_list array_type (tt, tt) refl

map_find-offset_example :
    map_find test_engine (zval_of list_of_two) (lit "1") Value.null ≡ returns (some true_value)
unfolding convert_entry from_zval
map_find-offset_example =
    map_find-offset test_engine (zval_of list_of_two) list_of_two (lit "1") is_true Value.null refl
      tt refl

send_options_iff_example :
    ((send_options (record { is_closure = false; parameters = some (untyped ∷ []) }) 0 ≡ true)
      ↔ (get_elem? (untyped ∷ []) 0 ≡ some (class_name options_class)))
    × ((send_options (record { is_closure = true; parameters = some (untyped ∷ []) }) 0 ≡ false)
        ↔ (get_elem? (untyped ∷ []) 0 ≡ some only_mask))
send_options_iff_example = send_options_iff (untyped ∷ []) 0

-- An engine in which every object is callable, and a helper that throws.
abbrev calling_engine : Engine
calling_engine = record test_engine { is_callable_object = λ o. true }

abbrev throwing_calls : Calls
throwing_calls = record {
  callee = λ o. record { is_closure = true; parameters = none };
  call_function = λ o args. record { failed = false; z_ret = undef; exception = true };
  external_error = pos 9;
}

abbrev helper_object : HandlebarsZval
helper_object = record { callable = known true; int_array = unknown; intern = Zval.object 4 }

abbrev keep_running : Value → Outcome (Option Text)
keep_running v = ok (some (lit "more"))

zval_call-pending_example :
    php_handlebars_try runtime_exception
      (zval_call calling_engine throwing_calls helper_object [] null Value.null).0
      keep_running
    ≡ ok none
unfolding is_callable
zval_call-pending_example =
    zval_call-pending calling_engine throwing_calls helper_object 4 [] null Value.null
      runtime_exception keep_running refl refl (refl, tt) refl refl

abbrev stay : ℕ → ℕ
stay s = s

countdown-IsFinite : IsFinite countdown stay
countdown-IsFinite = record {
  valid = positive;
  valid_keeps = λ s. refl;
  data_keeps = λ s. refl;
  key_keeps = λ get_key s h. ground arith;
  forward = less;
}
  where
    positive : (s : ℕ) → is_positive s ≡ true → 0 < s
    positive zero h = ground arith
    positive (suc n) h = omega arith

    less : (s : ℕ) → predecessor s ≡ s - 1
    less zero = refl
    less (suc n) = omega arith

ends-finite_example : ends countdown 6 (counting 5) ≡ true
ends-finite_example =
    ends-finite countdown stay countdown-IsFinite 6 (counting 5) refl (omega arith)

abbrev list_zval : Zval
list_zval = array list_of_two

abbrev no_memory : Memory
no_memory = record { cells = []; events = [] }
