-- ===== src/Utils/ContextPath.antt =====
-- `Handlebars\Utils::appendContextPath` of src/utils.c.
pub mod Joined
use php_handlebars.Base.{
  ℕ, Bool, Option, none, some, [], ◌∷◌, ◌++◌, Text, lit, length, ltb, if◌then◌else◌,
}
use php_handlebars.Zend.{Zval, string, array, object, name}
use php_handlebars.Zend.Hash.{find}
use php_handlebars.Zend.Outcome.{Outcome, ok, ◌>>=◌, ◌>>◌, assert_zero}
use php_handlebars.Zend.Engine.{Engine}
use php_handlebars.Utils.CString.{format_s}

-- `INTERNED_CONTEXT_PATH`
abbrev pub interned_context_path : Text
interned_context_path = lit "contextPath"

-- The `switch` on the type of `context_path`.
unfoldable pub context_path_entry : Engine → Zval → Outcome (Option Zval)
context_path_entry e (array b) = ok (find (name interned_context_path) b)
context_path_entry e (object o) = ok (e.read_property o interned_context_path)
context_path_entry e (string s) = ok (some (string s))
context_path_entry e _ = do assert_zero e.asserts; ok none

-- `handlebars_string_asprintf(ctx, "%.*s.%.*s", ...)`
unfoldable pub join_path : Text → Text → Text
join_path tmp id = format_s (length tmp) tmp ++ lit "." ++ format_s (length id) id

unfoldable pub append_to_entry : Option Zval → Text → Text
append_to_entry (some (string tmp)) id = if ltb 0 (length tmp) then join_path tmp id else id
append_to_entry _ id = id

unfoldable pub append_context_path : Engine → Zval → Text → Outcome Text
append_context_path e context_path id = do
  entry ← context_path_entry e context_path
  ok (append_to_entry entry id)
