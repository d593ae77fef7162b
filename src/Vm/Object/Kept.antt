-- ===== src/Vm/Object/Kept.antt =====
-- What a `Handlebars\VM` object keeps of its helpers and partials, as long as nothing was thrown.
use php_handlebars.Base.{◌≡◌, refl, ◌⊎◌, inl, inr, Bool, true, false, List, [], ◌∷◌, ◌++◌, arith}
use php_handlebars.Zend.{Zval}
use php_handlebars.Zend.Outcome.{Exception, runtime_exception}
use php_handlebars.Libhandlebars.{LibError, returns, raises}
use php_handlebars.Value.{Value, no_fields}
use php_handlebars.Value.FromZval.{from_zval}
use php_handlebars.Vm.Object.{VmObj, thrown}

-- `handlebars_value_dtor` leaves null.
abbrev pub IsNulling : (Value → Value) → Type 0
IsNulling dtor = (v : Value) → dtor v ≡ Value.null

-- What is stored is the property's conversion, or the empty map that the object starts with.
abbrev pub Agrees : Zval → Value → Type 0
Agrees property stored =
    (from_zval property Value.null ≡ returns stored)
    ⊎ ((property ≡ Zval.null) × (stored ≡ Value.map no_fields))

abbrev pub is_empty {ℓ} : {A : Type ℓ} → List A → Bool
is_empty [] = true
is_empty (x ∷ xs) = false

abbrev pub Kept : List Exception → Zval → Value → Type 0
Kept xs property stored = (is_empty xs ≡ false) ⊎ Agrees property stored

abbrev pub IsCoherent : VmObj → List Exception → Type 0
IsCoherent obj xs =
    (obj.jmp ≡ false) × Kept xs obj.std.helpers obj.helpers × Kept xs obj.std.partials obj.partials

pub is_empty-append : (xs ys : List Exception) → is_empty xs ≡ false → is_empty (xs ++ ys) ≡ false
is_empty-append [] ys h = ground arith
is_empty-append (x ∷ xs) ys h = refl

pub is_empty-thrown : (xs : List Exception) (y : Exception) → is_empty (xs ++ y ∷ []) ≡ false
is_empty-thrown [] y = refl
is_empty-thrown (x ∷ xs) y = refl

pub Kept-append :
    (xs ys : List Exception) (p : Zval) (v : Value) → Kept xs p v → Kept (xs ++ ys) p v
Kept-append xs ys p v (inl h) = inl (is_empty-append xs ys h)
Kept-append xs ys p v (inr h) = inr h

-- The exception of a conversion's error.
abbrev pub exception_of : LibError → Exception
exception_of e = record { class_entry = runtime_exception; message = e.message; code = e.num }

pub from_zval-thrown :
    (v : Zval) (rv : Value) (e : LibError)
    → from_zval v rv ≡ raises e
    → thrown e ≡ exception_of e ∷ []
unfolding from_zval thrown
from_zval-thrown Zval.undef rv e h = ground arith
from_zval-thrown Zval.null rv e h = ground arith
from_zval-thrown Zval.is_true rv e h = ground arith
from_zval-thrown Zval.is_false rv e h = ground arith
from_zval-thrown (Zval.double d) rv e h = ground arith
from_zval-thrown (Zval.long n) rv e h = ground arith
from_zval-thrown (Zval.string s) rv e h = ground arith
from_zval-thrown (Zval.object o) rv e h = ground arith
from_zval-thrown (Zval.array b) rv e h = ground arith
from_zval-thrown (Zval.resource r) rv e h = ground arith
from_zval-thrown (Zval.reference v) rv e h = ground arith
from_zval-thrown (Zval.indirect v) rv e h = ground arith

-- A failed conversion ends with an exception.
pub thrown-Kept :
    (xs : List Exception) (v p : Zval) (rv stored : Value) (e : LibError)
    → from_zval v rv ≡ raises e
    → Kept (xs ++ thrown e) p stored
thrown-Kept xs v p rv stored e h =
    rw (from_zval-thrown v rv e h) (inl (is_empty-thrown xs (exception_of e)))
