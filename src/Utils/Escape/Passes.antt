-- ===== src/Utils/Escape/Passes.antt =====
-- The two passes of `php_handlebars_escape_expression_replace_helper` of src/utils.c: the space that
-- the first reserves is what the second writes, and together they are one substitution.
use mathlib.Core.List.{flat_map}
use php_handlebars.Base.{
  ℕ, ◌+◌, ◌*◌, ◌^◌, ◌<◌, ◌≡◌, refl, [], ◌∷◌, ◌++◌, Text, ◌==◌, arith, lit, if◌then◌else◌, length,
  length-append,
}
use php_handlebars.Utils.CString.{c_string, strlen}
use php_handlebars.Utils.Escape.{occurrences, replacement, replace_copy, replace_helper}

-- The character reference that stands for a quote, and any other byte as it is.
abbrev pub spelled : ℕ → Text
spelled c = if c == 39 then lit "&#x27;" else if c == 96 then lit "&#x60;" else c ∷ []

-- The bytes of a C string and the zero behind them, with each ` and ' spelled out.
abbrev pub substituted : Text → Text
substituted t = flat_map spelled (c_string t) ++ 0 ∷ []

pub length-replace_copy : (t : Text) → length (replace_copy t) ≡ strlen t + occurrences t * 5
unfolding replace_copy occurrences
length-replace_copy [] = refl
length-replace_copy (c ∷ t) =
    ground (arith, length-append (replacement c) (replace_copy t), length-replace_copy t)

pub replace_copy-eq-flat_map : (t : Text) → replace_copy t ≡ flat_map spelled (c_string t)
unfolding replace_copy flat_map
replace_copy-eq-flat_map [] = refl
replace_copy-eq-flat_map (c ∷ t) = ground (arith, replace_copy-eq-flat_map t)

pub replace_copy-no_occurrence : (t : Text) → occurrences t ≡ 0 → replace_copy t ≡ c_string t
unfolding replace_copy occurrences
replace_copy-no_occurrence [] h = refl
replace_copy-no_occurrence (c ∷ t) h = ground (arith, replace_copy-no_occurrence t)

occurrences-of_empty : (t : Text) → strlen t ≡ 0 → occurrences t ≡ 0
unfolding occurrences
occurrences-of_empty [] h = refl
occurrences-of_empty (c ∷ t) h = ground arith

occurrences-le-strlen : (t : Text) → occurrences t < strlen t + 1
unfolding occurrences
occurrences-le-strlen [] = omega arith
occurrences-le-strlen (c ∷ t) = ground (arith, occurrences-le-strlen t)

-- On every path through the helper, what is written to the block is the substituted string.
pub replace_helper-eq-substituted : (t : Text) → (replace_helper t).written ≡ substituted t
unfolding replace_helper
replace_helper-eq-substituted t =
    ground (arith, replace_copy-eq-flat_map t, replace_copy-no_occurrence t, occurrences-of_empty t)

-- On every path through the helper the block is as long as what is written to it, for a string of
-- less than 2 ^ 60 bytes.
pub replace_helper-fits :
    (t : Text) → strlen t < 2 ^ 60 → length (replace_helper t).written ≡ (replace_helper t).size
unfolding replace_helper
replace_helper-fits t h = ground (
  arith,
  length-append (c_string t) (0 ∷ []),
  length-append (replace_copy t) (0 ∷ []),
  length-replace_copy t,
  occurrences-le-strlen t,
)
