-- ===== src/Vm/Render/Strings/GivenBack.antt =====
-- Which references to its strings `render` of src/vm.c gives back.
use php_handlebars.Base.{ℕ, ◌≡◌, Option, List, [], ◌∷◌, Text, Bool, true, false, ◌↔◌}
use php_handlebars.Zend.{Zval}
use php_handlebars.Zend.Outcome.{Outcome}
use php_handlebars.Libhandlebars.{Library}
use php_handlebars.Vm.Render.{InputType, World}
use php_handlebars.Vm.Render.Strings.{input_string, StringEvent, addref, delref, Leaks}

-- The middle of the calls, by whether a reference stays behind.
data IsMiddle : Bool → List StringEvent → Type 0 where
  untouched : IsMiddle false []
  closed : IsMiddle false (addref input_string ∷ delref input_string ∷ [])
  open_end : IsMiddle true (addref input_string ∷ [])

abbrev left_behind : Bool → ℕ
left_behind true = 1
left_behind false = 0

module _ {Ast Program : Type 0} (l : Library Ast Program) (kept : Text → Bool) (w : World) where
  -- What the calls on the template are, and when they leave a reference behind.
  abbrev Settled : InputType → Text → Option Zval → Option Text → List StringEvent → Type 0
  Settled type input z_options bytes events =
      (leak : Bool) × IsMiddle leak events
      × ((leak ≡ true) ↔ Leaks l kept w type input z_options bytes)
