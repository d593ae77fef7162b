-- ===== src/Utils/Escape.antt =====
-- `Handlebars\Utils::escapeExpression` and `escapeExpressionCompat` of src/utils.c.
pub mod Passes
pub mod Safety
use php_handlebars.Base.{
  ℕ, suc, ◌+◌, ◌*◌, ◌^◌, ◌%◌, Bool, true, false, ◌||◌, Option, none, some, [], ◌∷◌, ◌++◌, Text, lit,
  ◌==◌, if◌then◌else◌,
}
use php_handlebars.Zend.{Zval, object, string}
use php_handlebars.Zend.Outcome.{Outcome, ok, aborted, ◌>>=◌}
use php_handlebars.Zend.Engine.{Engine, safe_string, ent_quotes, ent_compat}
use php_handlebars.Utils.CString.{c_string, strlen}
use php_handlebars.Utils.Expression.{expression}

-- The first pass: count the ` and '.
unfoldable pub occurrences : Text → ℕ
occurrences [] = 0
occurrences (c ∷ t) =
    let more = occurrences t in
    if c == 0 then 0 else if c == b'`' || c == 39 then more + 1 else more

-- What the second pass writes for one byte.
unfoldable pub replacement : ℕ → Text
replacement c = if c == b'`' then lit "&#x60;" else if c == 39 then lit "&#x27;" else c ∷ []

-- The second pass, up to the terminating zero.
unfoldable pub replace_copy : Text → Text
unfolding replacement
replace_copy [] = []
replace_copy (c ∷ t) = let copied = replacement c ++ replace_copy t in if c == 0 then [] else copied

-- A block of `emalloc` or `estrdup`, by its size and the bytes that were written to it.
pub record Block : Type 0 where
  pub size : ℕ
  pub written : Text

unfoldable pub estrdup : Text → Block
estrdup t = record { size = strlen t + 1; written = c_string t ++ 0 ∷ [] }

unfoldable pub replace_helper : Text → Block
unfolding occurrences replace_copy estrdup
replace_helper input =
    if strlen input == 0
    then estrdup input
    else if occurrences input == 0
    then estrdup input
    else record {
      size = (strlen input + occurrences input * 5 + 1) % 2 ^ 64;
      written = replace_copy input ++ 0 ∷ [];
    }

-- `Z_TYPE_P(val) == IS_OBJECT && instanceof_function(..., HandlebarsSafeString_ce_ptr)`
unfoldable pub is_safe_string : Engine → Zval → Bool
is_safe_string e (object o) = e.instance_of o safe_string
is_safe_string e _ = false

-- `RETURN_ZVAL` of the property `value`, whose address the source does not test
unfoldable pub safe_string_value : Engine → Zval → Outcome Zval
safe_string_value e (object o) = elim (e.read_property o (lit "value")) [
  | none ↦ aborted
  | some v ↦ ok v
]
safe_string_value e _ = aborted

unfoldable pub escape_expression : Engine → Zval → Outcome Zval
unfolding is_safe_string safe_string_value
escape_expression e val =
    if is_safe_string e val
    then safe_string_value e val
    else ok (string (e.escape_html ent_quotes (e.convert_to_string val)))

-- `RETVAL_STRING` takes the bytes in front of the first zero.
unfoldable pub escape_expression_compat : Engine → Zval → Outcome Zval
unfolding is_safe_string safe_string_value replace_helper
escape_expression_compat e val = if is_safe_string e val then safe_string_value e val else do
  tmp ← expression e val
  ok (string (c_string (replace_helper (e.escape_html ent_compat tmp)).written))
