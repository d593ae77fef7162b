-- ===== src/Classes/Hierarchy.antt =====
-- What the registration of the classes leaves in PHP's table: it comes to its end, and every class
-- comes from classes that were there before it.
use php_handlebars.Base.{◌≡◌, refl, Bool, true, false, Option, none, some}
use php_handlebars.Zend.Outcome.{Outcome, ok, throw, aborted}
use php_handlebars.Classes.{Class, ClassTable, no_classes}
use php_handlebars.Classes.Exceptions.{Builtins}
use php_handlebars.Classes.Registration.{Host, register_classes}

-- The table that a registration leaves.
abbrev pub table_of : Outcome ClassTable → ClassTable
table_of (ok t) = t
table_of (throw e) = no_classes
table_of aborted = no_classes

unfoldable pub table : Host → ClassTable
table h = table_of (register_classes h)

abbrev pub host : Builtins → Bool → Option Class → Bool → Host
host b psr l ast = record { builtins = b; has_psr = psr; logger_aware = l; enable_ast = ast }

-- A property of every host, by the cases of its switches.
pub Host-cases {ℓ} :
    (P : Host → Type ℓ)
    → ((b : Builtins) (l : Option Class) (ast : Bool) → P (host b false l ast))
    → ((b : Builtins) (ast : Bool) → P (host b true none ast))
    → ((b : Builtins) (c : Class) (ast : Bool) → P (host b true (some c) ast))
    → (h : Host) → P h
Host-cases P p q r h = cases h.has_psr h.logger_aware
  where
    cases : (psr : Bool) (l : Option Class) → P (host h.builtins psr l h.enable_ast)
    cases false l = p h.builtins l h.enable_ast
    cases true none = q h.builtins h.enable_ast
    cases true (some c) = r h.builtins c h.enable_ast

pub register_classes-ok : (h : Host) → register_classes h ≡ ok (table h)
unfolding table register_classes
register_classes-ok =
    Host-cases (λ h. register_classes h ≡ ok (table h)) (λ b l ast. refl) (λ b ast. refl)
      λ b c ast. refl
