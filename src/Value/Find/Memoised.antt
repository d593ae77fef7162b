-- ===== src/Value/Find/Memoised.antt =====
-- The flags of a `struct handlebars_zval` of src/value.c, kept after they are first asked for.
use php_handlebars.Base.{◌≡◌, refl, subst, Bool, if◌then◌else◌}
use php_handlebars.Zend.{Zval, object, array}
use php_handlebars.Zend.Outcome.{Outcome, ok, aborted}
use php_handlebars.Zend.Engine.{Engine}
use php_handlebars.Utils.IntArray.{is_int_array, is_callable}
use php_handlebars.Value.{Memo, unknown, known, HandlebarsZval}
use php_handlebars.Value.Find.{ValueType, array_type, map_type, helper_type, recall, zval_type}

-- A flag that is kept is the answer.
abbrev pub Holds : Memo → Bool → Type 0
Holds unknown answer = Unit
Holds (known flag) answer = flag ≡ answer

abbrev pub IsMemoised : Engine → HandlebarsZval → Type 0
IsMemoised e obj =
    Holds obj.callable (is_callable e obj.intern) × Holds obj.int_array (is_int_array obj.intern)

-- The type of a PHP value, by the value alone.
abbrev pub seen_type : Engine → Zval → Outcome ValueType
seen_type e (array b) = ok (if is_int_array (array b) then array_type else map_type)
seen_type e (object o) = ok (if is_callable e (object o) then helper_type else map_type)
seen_type e _ = aborted

pub recall-Holds : (m : Memo) (answer : Bool) → Holds m answer → recall m answer ≡ answer
unfolding recall
recall-Holds unknown answer h = refl
recall-Holds (known flag) answer h = h

IsAnswer : Engine → HandlebarsZval → Outcome (ValueType × HandlebarsZval) → Type 0
IsAnswer e obj (ok (t, obj')) =
    (seen_type e obj.intern ≡ ok t)
    × IsMemoised e obj'
    × (obj'.intern ≡ obj.intern)
    × (zval_type e obj' ≡ ok (t, obj'))
IsAnswer e obj _ = Unit

abbrev obj_of : Memo → Memo → Zval → HandlebarsZval
obj_of c i v = record { callable = c; int_array = i; intern = v }

typed-IsAnswer :
    (e : Engine) (c i : Memo) (v : Zval)
    → IsMemoised e (obj_of c i v)
    → IsAnswer e (obj_of c i v) (zval_type e (obj_of c i v))
unfolding zval_type IsAnswer recall
typed-IsAnswer e c i (array b) h =
    rw (recall-Holds i (is_int_array (array b)) h.1) (refl, (h.0, refl), refl, refl)
typed-IsAnswer e c i (object o) h =
    rw (recall-Holds c (is_callable e (object o)) h.0) (refl, (refl, h.1), refl, refl)
typed-IsAnswer e c i _ h = tt

-- With flags that hold, the type is that of the PHP value alone, the flags hold afterwards, the value
-- stays, and to ask again gives the same and changes nothing.
pub zval_type-IsMemoised :
    (e : Engine) (obj obj' : HandlebarsZval) (t : ValueType)
    → IsMemoised e obj
    → zval_type e obj ≡ ok (t, obj')
    → (seen_type e obj.intern ≡ ok t)
      × IsMemoised e obj'
      × (obj'.intern ≡ obj.intern)
      × (zval_type e obj' ≡ ok (t, obj'))
unfolding IsAnswer
zval_type-IsMemoised e obj obj' t h r =
    subst (IsAnswer e obj) r (typed-IsAnswer e obj.callable obj.int_array obj.intern h)
