-- ===== src/Tokenizer.antt =====
-- src/tokenizer.c and src/token.c: the methods `Handlebars\Tokenizer::lex` and `lexPrint`, and the
-- objects of `Handlebars\Token`.
pub mod Tokens
use php_handlebars.Base.{Bool, true, false, Option, none, some, List, [], ◌∷◌, Text, lit}
use php_handlebars.Zend.Outcome.{Outcome, ok, runtime_exception, compile_exception}
use php_handlebars.Zend.Tree.{
  Tree, Entries, undef, end, string, array, object, token_class, update_property, add_next,
}
use php_handlebars.Libhandlebars.{LibResult, returns, raises, php_handlebars_try}

-- What the extension calls of libhandlebars's lexer.
pub record Lexer (Token : Type 0) : Type 0 where
  -- `handlebars_lex_ex`, the tokens up to the NULL at their end
  pub lex_ex : Text → LibResult (List Token)
  -- `handlebars_token_readable_type` of `handlebars_token_get_type`
  pub readable_type : Token → Text
  -- `handlebars_token_get_text`, or none for NULL
  pub get_text : Token → Option Text
  pub print_append : Text → Token → LibResult Text
  pub rtrim : Text → Text → Text

-- `Handlebars\Token::__construct`
unfoldable pub construct_token : Text → Text → Entries → Entries
construct_token name text this =
    update_property (lit "text") (string text) (update_property (lit "name") (string name) this)

-- The typed properties of `Handlebars\Token`.
abbrev pub token_properties : Entries
token_properties = update_property (lit "text") undef (update_property (lit "name") undef end)

unfoldable pub text_or_empty : Option Text → Text
text_or_empty none = []
text_or_empty (some text) = text

module _ {Token : Type 0} (x : Lexer Token) where
  unfoldable pub token_ctor : Token → Tree
  unfolding construct_token text_or_empty
  token_ctor token =
      object token_class (
        construct_token (x.readable_type token) (text_or_empty (x.get_text token)) token_properties)

  -- The loop that prints the tokens.
  unfoldable pub print_tokens : List Token → Text → LibResult Text
  print_tokens [] output = returns output
  print_tokens (token ∷ tokens) output = elim (x.print_append output token) [
    | returns output' ↦ print_tokens tokens output'
    | raises e ↦ raises e
  ]

  -- The loop that fills the array.
  unfoldable pub add_tokens : List Token → Entries → Entries
  unfolding token_ctor
  add_tokens [] return_value = return_value
  add_tokens (token ∷ tokens) return_value =
      add_tokens tokens (add_next (token_ctor token) return_value)

  unfoldable pub lex_result : Bool → List Token → Outcome (Option Tree)
  unfolding print_tokens add_tokens php_handlebars_try
  lex_result true tokens =
      php_handlebars_try runtime_exception (print_tokens tokens [])
        λ output. ok (some (string (x.rtrim output (lit "\r\n "))))
  lex_result false tokens = ok (some (array (add_tokens tokens end)))

  unfoldable pub lex : Bool → Text → Outcome (Option Tree)
  unfolding lex_result
  lex print tmpl = php_handlebars_try compile_exception (x.lex_ex tmpl) (lex_result print)
