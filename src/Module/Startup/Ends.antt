-- ===== src/Module/Startup/Ends.antt =====
-- The start of the module in src/php_handlebars.c comes to its end.
use php_handlebars.Base.{
  ℕ, ◌≡◌, refl, ap, ◌∙◌, Bool, true, false, not, Option, none, some, is_some, List, [], ◌∷◌, ◌++◌,
  Text, lit, text_eq, if◌then◌else◌,
}
use php_handlebars.Zend.Outcome.{ok}
use php_handlebars.Module.{Setup}
use php_handlebars.Module.Startup.{
  Constant, null_constant, Environment, Started, first_constants, backend_constant, started,
  after_setup, setup, module_start, started-ok,
}
use php_handlebars.Classes.Hierarchy.{table}

-- The value of a constant.
unfoldable pub constant : Text → List (Text × Constant) → Option Constant
constant n [] = none
constant n ((k, v) ∷ l) = let rest = constant n l in if text_eq k n then some v else rest

abbrev pub is_null : Option Constant → Bool
is_null (some null_constant) = true
is_null _ = false

module _ {Cache : Type 0} (e : Environment Cache) where
  constant-backend :
      (b : Option Text)
      → constant
          (lit "Handlebars\\CACHE_BACKEND")
          (first_constants e ++ (lit "Handlebars\\CACHE_BACKEND", backend_constant b) ∷ [])
        ≡ some (backend_constant b)
  unfolding constant first_constants
  constant-backend b = refl

  is_null-backend : (b : Option Text) → is_null (some (backend_constant b)) ≡ not (is_some b)
  unfolding backend_constant
  is_null-backend none = refl
  is_null-backend (some b) = refl

  -- What the start leaves, by what the setup of the cache leaves.
  pub started-setup :
      (s : Setup Cache)
      → (r : Started Cache) × (started e s ≡ ok r)
        × (r.globals ≡ s.globals)
        × (r.classes ≡ table e.classes)
        × (is_null (constant (lit "Handlebars\\CACHE_BACKEND") r.constants)
            ≡ not (is_some s.backend))
  started-setup s =
      let (r, ended, globals, classes, constants) = started-ok e s in
      (
        r,
        ended,
        globals,
        classes,
        rw (constants, constant-backend s.backend) (is_null-backend s.backend),
      )

  pub module_start-setup :
      (n : ℕ) (s : Setup Cache) (r : Started Cache)
      → setup n e ≡ some s
      → started e s ≡ ok r
      → module_start n e ≡ some (ok r)
  unfolding module_start
  module_start-setup n s r h ended = ap (after_setup e) h ∙ ap some ended
