-- ===== src/Utils/Escape/Safety.antt =====
-- What `escapeExpressionCompat` of src/utils.c guarantees of its result, and what it loses.
use mathlib.Core.List.{flat_map}
use php_handlebars.Base.{
  Bool-cases, inl, inr, ℕ, ◌≡◌, ◌≢◌, refl, [], ◌∷◌, ◌++◌, Text, arith, All, All-append, false, ◌==◌,
}
use php_handlebars.Zend.{Zval, string}
use php_handlebars.Zend.Outcome.{Outcome, ok, throw, aborted}
use php_handlebars.Zend.Engine.{Engine, ent_compat}
use php_handlebars.Utils.CString.{c_string}
use php_handlebars.Utils.Expression.{expression}
use php_handlebars.Utils.Escape.{replace_helper, is_safe_string, escape_expression_compat}
use php_handlebars.Utils.Escape.Passes.{replace_helper-eq-substituted, spelled}

-- Not one of < > and ".
abbrev pub IsMarkupFree : ℕ → Type 0
IsMarkupFree c = (c ≢ b'<') × (c ≢ b'>') × (c ≢ b'"')

-- Nor one of ' and `.
abbrev pub IsInert : ℕ → Type 0
IsInert c = (c ≢ b'<') × (c ≢ b'>') × (c ≢ b'"') × (c ≢ 39) × (c ≢ b'`')

-- What `php_escape_html_entities_ex` promises with ENT_COMPAT.
abbrev pub EscapesMarkup : Engine → Type 0
EscapesMarkup e = (t : Text) → All IsMarkupFree (e.escape_html ent_compat t)

spelled-IsInert : (c : ℕ) → IsMarkupFree c → All IsInert (spelled c)
spelled-IsInert c h = ground arith

flat_map-spelled-IsInert : (t : Text) → All IsMarkupFree t → All IsInert (flat_map spelled t)
unfolding flat_map
flat_map-spelled-IsInert [] h = tt
flat_map-spelled-IsInert (c ∷ t) h =
    All-append IsInert (spelled c) (flat_map spelled t) (spelled-IsInert c h.0)
      (flat_map-spelled-IsInert t h.1)

All-c_string {κ} : (P : ℕ → Type κ) (t : Text) → All P t → All P (c_string t)
All-c_string P [] h = tt
All-c_string P (c ∷ t) h = elim (Bool-cases (c == 0)) [
  | inl e ↦ rw e tt
  | inr e ↦ rw e (h.0, All-c_string P t h.1)
]

replace_helper-IsInert :
    (t : Text) → All IsMarkupFree t → All IsInert (c_string (replace_helper t).written)
replace_helper-IsInert t h = All-c_string IsInert (replace_helper t).written (
    rw (replace_helper-eq-substituted t)
      (All-append IsInert _ _ (flat_map-spelled-IsInert _ (All-c_string _ t h)) (ground arith)))

-- If `php_escape_html_entities_ex` leaves no < > and ", then whatever value that is no safe string is
-- escaped without an exception, the result is a string that holds none of < > " ' and `.
pub escape_expression_compat-IsInert :
    (e : Engine)
    → EscapesMarkup e
    → (val r : Zval) → is_safe_string e val ≡ false
    → escape_expression_compat e val ≡ ok r
    → (t : Text) × (r ≡ string t) × All IsInert t
unfolding escape_expression_compat
escape_expression_compat-IsInert e h val r unsafe done = inert (expression e val) refl
  where
    inert : (o : Outcome Text) → expression e val ≡ o → (t : Text) × (r ≡ string t) × All IsInert t
    inert (ok tmp) p = (
      c_string (replace_helper (e.escape_html ent_compat tmp)).written,
      ground arith,
      replace_helper-IsInert _ (h tmp),
    )
    inert (throw x) p = ground arith
    inert aborted p = ground arith

c_string-append_zero : (s t : Text) → c_string (s ++ 0 ∷ t) ≡ c_string s
c_string-append_zero [] t = refl
c_string-append_zero (c ∷ s) t = ground (arith, c_string-append_zero s t)

replace_helper-append_zero :
    (s t : Text) → (replace_helper (s ++ 0 ∷ t)).written ≡ (replace_helper s).written
replace_helper-append_zero s t = rw (
  replace_helper-eq-substituted (s ++ 0 ∷ t),
  replace_helper-eq-substituted s,
  c_string-append_zero s t,
)

-- If a string converts to itself and `php_escape_html_entities_ex` keeps a byte of zero in its place,
-- then what follows the first byte of zero in a string does not reach the result.
pub escape_expression_compat_truncates :
    (e : Engine) (s t : Text)
    → ((u : Text) → e.convert_to_string (string u) ≡ u)
    → e.escape_html ent_compat (s ++ 0 ∷ t)
      ≡ e.escape_html ent_compat s ++ 0 ∷ e.escape_html ent_compat t
    → escape_expression_compat e (string (s ++ 0 ∷ t)) ≡ escape_expression_compat e (string s)
unfolding escape_expression_compat expression is_safe_string
escape_expression_compat_truncates e s t conv esc =
    rw (conv (s ++ 0 ∷ t), conv s, esc, replace_helper-append_zero _ _)
