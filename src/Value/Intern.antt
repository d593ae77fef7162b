-- ===== src/Value/Intern.antt =====
-- `set_intern_zval` of src/value.c with the memory that it writes: a libhandlebars value that is a
-- PHP value points to a cell, which its copies share, and the cell owns a reference to the zval.
pub mod Refill
use php_handlebars.Base.{ℕ, zero, suc, Option, none, some, List, [], ◌∷◌, ◌++◌, length, get_elem?}
use php_handlebars.Zend.{Zval, undef}
use php_handlebars.Value.{unknown, HandlebarsZval}

-- What is done with the reference counts of zvals.
pub data RefEvent : Type 0 where
  addref ptr_dtor : Zval → RefEvent

-- The cells by their addresses, and the events so far.
pub record Memory : Type 0 where
  pub cells : List HandlebarsZval
  pub events : List RefEvent

-- What `handlebars_talloc_zero` gives.
abbrev pub zero_cell : HandlebarsZval
zero_cell = record { callable = unknown; int_array = unknown; intern = undef }

abbrev pub write : ℕ → HandlebarsZval → List HandlebarsZval → List HandlebarsZval
write a c [] = []
write zero c (d ∷ cells) = c ∷ cells
write (suc a) c (d ∷ cells) = d ∷ write a c cells

-- `obj->int_array = obj->callable = -1` and `ZVAL_ZVAL(&obj->intern, val, 1, 0)`
unfoldable pub fill : ℕ → Zval → Memory → Memory
fill a val m = record {
  cells = write a (record { callable = unknown; int_array = unknown; intern = val }) m.cells;
  events = m.events ++ addref val ∷ [];
}

-- The value's cell is the one that `handlebars_value_get_user` returns, or a new one.
unfoldable pub set_intern_zval : Option ℕ → Zval → Memory → ℕ × Memory
unfolding fill
set_intern_zval (some obj) val m = (obj, fill obj val m)
set_intern_zval none val m =
    let obj = length m.cells in (obj, fill obj val (record m { cells = m.cells ++ zero_cell ∷ [] }))

-- `handlebars_zval_intern_dtor`, when the cell is freed
unfoldable pub intern_dtor : ℕ → Memory → Memory
intern_dtor obj m = elim (get_elem? m.cells obj) [
  | none ↦ m
  | some c ↦ record m { events = m.events ++ ptr_dtor c.intern ∷ [] }
]
