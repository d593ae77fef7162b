-- ===== src/Tests/Utils.antt =====
-- The theorems on src/utils.c.
use php_handlebars.Base.{◌≡◌, refl, [], ◌∷◌, Text, lit, All, All-append, length, arith, ℕ}
use php_handlebars.Zend.{Buckets, end, bucket, name, index, is_true, is_false, array, string}
use php_handlebars.Zend.Hash.{symtable_key, find}
use php_handlebars.Zend.Outcome.{ok}
use php_handlebars.Utils.NameLookup.{name_lookup, return_entry, is_integer_string}
use php_handlebars.Utils.NameLookup.Offset.{name_lookup-eq-offset}
use php_handlebars.Utils.Expression.{expression}
use php_handlebars.Utils.Escape.{replace_helper, escape_expression_compat}
use php_handlebars.Utils.Escape.Passes.{
  substituted, replace_helper-eq-substituted, replace_helper-fits,
}
use php_handlebars.Utils.Escape.Safety.{
  IsMarkupFree, IsInert, EscapesMarkup, escape_expression_compat-IsInert,
}
use php_handlebars.Tests.Fixtures.{test_engine, html_byte, html}

html_byte-IsMarkupFree : (c : ℕ) → All IsMarkupFree (html_byte c)
html_byte-IsMarkupFree c = ground arith

html-IsMarkupFree : EscapesMarkup test_engine
html-IsMarkupFree [] = tt
html-IsMarkupFree (c ∷ t) =
    All-append IsMarkupFree (html_byte c) (html t) (html_byte-IsMarkupFree c) (html-IsMarkupFree t)

replace_helper-eq-substituted_example :
    (replace_helper (lit "it's `a`")).written ≡ substituted (lit "it's `a`")
replace_helper-eq-substituted_example = replace_helper-eq-substituted (lit "it's `a`")

replace_helper-fits_example :
    length (replace_helper (lit "it's `a`")).written ≡ (replace_helper (lit "it's `a`")).size
replace_helper-fits_example = replace_helper-fits (lit "it's `a`") (omega arith)

escape_expression_compat-IsInert_example :
    (t : Text) × (string (lit "&lt;&#x27;") ≡ string t) × All IsInert t
unfolding escape_expression_compat expression
escape_expression_compat-IsInert_example =
    escape_expression_compat-IsInert test_engine html-IsMarkupFree (string (lit "<'"))
      (string (lit "&lt;&#x27;")) refl refl

abbrev two_entries : Buckets
two_entries = bucket (index 12) is_true (bucket (name (lit "a")) is_false end)

name_lookup-eq-offset_example :
    name_lookup test_engine (array two_entries) (string (lit "12"))
    ≡ ok (return_entry (find (symtable_key (lit "12")) two_entries))
unfolding is_integer_string
name_lookup-eq-offset_example =
    name_lookup-eq-offset test_engine two_entries (lit "12") (refl, tt) refl

abbrev negative_entry : Buckets
negative_entry = bucket (symtable_key (lit "-5")) is_true end
