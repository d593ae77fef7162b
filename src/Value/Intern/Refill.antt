-- ===== src/Value/Intern/Refill.antt =====
-- What writing one libhandlebars value again and again with PHP values does, as the iterators of
-- src/value.c do with their current value.
use php_handlebars.Base.{
  ℕ, zero, suc, ◌<◌, ◌≡◌, ◌≢◌, refl, ap, ◌∙◌, Option, none, some, List, [], ◌∷◌, ◌++◌, length,
  length-append, get_elem?, arith, append_assoc,
}
use php_handlebars.Zend.{Zval}
use php_handlebars.Value.{unknown, HandlebarsZval}
use php_handlebars.Value.Intern.{
  RefEvent, addref, ptr_dtor, Memory, zero_cell, write, fill, set_intern_zval, intern_dtor,
}

-- The cell that a value has, if it has one, is in memory.
abbrev pub IsValid : Option ℕ → Memory → Type 0
IsValid none m = Unit
IsValid (some obj) m = obj < length m.cells

abbrev pub option_or : Option ℕ → ℕ → ℕ
option_or none i = i
option_or (some obj) i = obj

abbrev pub new_cell : Zval → HandlebarsZval
new_cell val = record { callable = unknown; int_array = unknown; intern = val }

get-write :
    (cells : List HandlebarsZval) (a : ℕ) (c : HandlebarsZval)
    → a < length cells
    → get_elem? (write a c cells) a ≡ some c
get-write [] a c h = absurd (omega arith)
get-write (d ∷ cells) zero c h = refl
get-write (d ∷ cells) (suc a) c h = get-write cells a c (omega (arith, h))

get-write_other :
    (cells : List HandlebarsZval) (a i : ℕ) (c : HandlebarsZval)
    → i ≢ a
    → get_elem? (write a c cells) i ≡ get_elem? cells i
get-write_other [] a i c h = refl
get-write_other (d ∷ cells) zero zero c h = absurd (h refl)
get-write_other (d ∷ cells) zero (suc i) c h = refl
get-write_other (d ∷ cells) (suc a) zero c h = refl
get-write_other (d ∷ cells) (suc a) (suc i) c h = get-write_other cells a i c λ e. h (ap suc e)

length-write :
    (cells : List HandlebarsZval) (a : ℕ) (c : HandlebarsZval)
    → length (write a c cells) ≡ length cells
length-write [] a c = refl
length-write (d ∷ cells) zero c = refl
length-write (d ∷ cells) (suc a) c = ap suc (length-write cells a c)

get-append :
    (cells : List HandlebarsZval) (d : HandlebarsZval) (i : ℕ)
    → i < length cells
    → get_elem? (cells ++ d ∷ []) i ≡ get_elem? cells i
get-append [] d i h = absurd (omega arith)
get-append (x ∷ cells) d zero h = refl
get-append (x ∷ cells) d (suc i) h = get-append cells d i (omega (arith, h))

-- One value, written with each of the zvals in turn.
abbrev pub refill : List Zval → ℕ × Memory → ℕ × Memory
refill [] s = s
refill (v ∷ vs) (obj, m) = refill vs (set_intern_zval (some obj) v m)

-- The value is written for the first time, then with the rest, and is freed at the end.
abbrev pub use_value : Zval → List Zval → Memory → Memory
use_value v vs m = let (obj, after) = refill vs (set_intern_zval none v m) in intern_dtor obj after

abbrev pub addrefs : List Zval → List RefEvent
addrefs [] = []
addrefs (v ∷ vs) = addref v ∷ addrefs vs

abbrev pub last_of : Zval → List Zval → Zval
last_of v [] = v
last_of v (w ∷ vs) = last_of w vs

refill-events :
    (v : Zval) (vs : List Zval) (obj : ℕ) (m : Memory)
    → get_elem? m.cells obj ≡ some (new_cell v)
    → obj < length m.cells
    → (intern_dtor (refill vs (obj, m)).0 (refill vs (obj, m)).1).events
      ≡ m.events ++ (addrefs vs ++ ptr_dtor (last_of v vs) ∷ [])
unfolding set_intern_zval intern_dtor
refill-events v [] obj m here inside = rw (intern_dtor, here) refl
refill-events v (w ∷ vs) obj m here inside =
    refill-events w vs obj (fill obj w m) (get-write m.cells obj (new_cell w) inside)
      (omega (arith, inside, length-write m.cells obj (new_cell w)))
    ∙ append_assoc m.events (addref w ∷ []) (addrefs vs ++ ptr_dtor (last_of w vs) ∷ [])

-- A value that `set_intern_zval` writes with several PHP values in turn, and that is then freed, has counted a
-- reference of each and given back only that of the last one.
pub use_value-events :
    (v : Zval) (vs : List Zval) (m : Memory)
    → (use_value v vs m).events ≡ m.events ++ (addrefs (v ∷ vs) ++ ptr_dtor (last_of v vs) ∷ [])
unfolding set_intern_zval
use_value-events v vs m =
    let obj = length m.cells in
    let grown = m.cells ++ zero_cell ∷ [] in
    let inside : obj < length grown = omega (arith, length-append m.cells (zero_cell ∷ [])) in
    refill-events v vs obj (set_intern_zval none v m).1 (get-write grown obj (new_cell v) inside)
      (omega (arith, inside, length-write grown obj (new_cell v)))
    ∙ append_assoc m.events (addref v ∷ []) (addrefs vs ++ ptr_dtor (last_of v vs) ∷ [])

-- After a value was written its cell holds the PHP value with both flags unknown, and every other cell
-- that there was is as before. A value without a cell gets a new one; a value that has one keeps it, so
-- that every copy of the value that shares the cell has changed with it.
pub set_intern_zval-cells :
    (user : Option ℕ) (val : Zval) (m : Memory) (i : ℕ)
    → IsValid user m
    → i < length m.cells
    → i ≢ option_or user (length m.cells)
    → ((set_intern_zval user val m).0 ≡ option_or user (length m.cells))
      × (get_elem? (set_intern_zval user val m).1.cells (option_or user (length m.cells))
          ≡ some (new_cell val))
      × (get_elem? (set_intern_zval user val m).1.cells i ≡ get_elem? m.cells i)
unfolding set_intern_zval
set_intern_zval-cells (some obj) val m i valid inside other = (
  refl,
  get-write m.cells obj (new_cell val) valid,
  get-write_other m.cells obj i (new_cell val) other,
)
set_intern_zval-cells none val m i valid inside other =
    let grown = m.cells ++ zero_cell ∷ [] in
    (
      refl,
      get-write grown (length m.cells) (new_cell val)
          (omega (arith, length-append m.cells (zero_cell ∷ []))),
      get-write_other grown (length m.cells) i (new_cell val) other
          ∙ get-append m.cells zero_cell i inside,
    )
