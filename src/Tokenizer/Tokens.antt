-- ===== src/Tokenizer/Tokens.antt =====
-- The tokens that src/tokenizer.c returns and prints.
use php_handlebars.Base.{
  ◌≡◌, refl, ap, ◌∙◌, sym, ◌⊎◌, inl, inr, ◌++◌, Bool, true, false, some, List, [], ◌∷◌, Text, lit,
  map, arith, append_assoc, append-nil,
}
use php_handlebars.Zend.{name}
use php_handlebars.Zend.Outcome.{ok, throw, Exception, runtime_exception, compile_exception}
use php_handlebars.Zend.Tree.{Tree, Entries, end, entry, string, array, object, token_class}
use php_handlebars.Zend.Tree.Lists.{list_entries, add_all, add_all-list}
use php_handlebars.Libhandlebars.{LibError, returns, raises, php_handlebars_try}
use php_handlebars.Vm.Compile.Stages.{try-some, try-throw}
use php_handlebars.Tokenizer.{
  Lexer, construct_token, text_or_empty, print_tokens, add_tokens, lex_result, lex,
}

module _ {Token : Type 0} (x : Lexer Token) where
  -- The object of a token: its type's name, and its text or the empty string.
  abbrev pub token_tree : Token → Tree
  unfolding text_or_empty
  token_tree token = object token_class (
      entry (name (lit "name")) (string (x.readable_type token))
        (entry (name (lit "text")) (string (text_or_empty (x.get_text token))) end))

  add_tokens-list :
      (tokens : List Token) (b : Entries)
      → add_tokens x tokens b ≡ add_all (map token_tree tokens) b
  unfolding add_tokens construct_token
  add_tokens-list [] b = refl
  add_tokens-list (token ∷ tokens) b = add_tokens-list tokens _

  -- `lex` returns the lexer's tokens as a list in their order, each an object of `Handlebars\Token`
  -- with its type's name and its text, or the empty string where it has none.
  pub lex-tokens :
      (tmpl : Text) (t : Tree)
      → lex x false tmpl ≡ ok (some t)
      → (tokens : List Token) × (x.lex_ex tmpl ≡ returns tokens)
        × (t ≡ array (list_entries 0 (map token_tree tokens)))
  unfolding lex lex_result
  lex-tokens tmpl t h =
      let (tokens, lexed, h1) = try-some compile_exception (x.lex_ex tmpl) (lex_result x false) h in
      let filled : add_tokens x tokens end ≡ list_entries 0 (map token_tree tokens) =
        add_tokens-list tokens end ∙ add_all-list [] (map token_tree tokens) in
      (tokens, lexed, ground (arith, filled))

  -- `lex` and `lexPrint` throw a compile exception exactly for what the lexer refuses itself, and a
  -- runtime exception only where the printing of a token fails.
  pub lex-throw :
      (print : Bool) (tmpl : Text) (y : Exception)
      → lex x print tmpl ≡ throw y
      → ((e : LibError) × (x.lex_ex tmpl ≡ raises e) × (y.class_entry ≡ compile_exception))
        ⊎ ((tokens : List Token) × (x.lex_ex tmpl ≡ returns tokens)
            × (print ≡ true)
            × (y.class_entry ≡ runtime_exception))
  unfolding lex lex_result php_handlebars_try
  lex-throw print tmpl y h =
      elim (try-throw compile_exception (x.lex_ex tmpl) (lex_result x print) h) [
        | inl raised ↦ inl raised
        | inr (tokens, lexed, later) ↦
            inr (tokens, lexed, (printed print tokens later).0, (printed print tokens later).1)
      ]
    where
      printed :
          (print : Bool) (tokens : List Token)
          → lex_result x print tokens ≡ throw y
          → (print ≡ true) × (y.class_entry ≡ runtime_exception)
      printed true tokens later =
          elim (try-throw runtime_exception (print_tokens x tokens []) _ later) [
            | inl (e, raised, class_entry) ↦ (refl, class_entry)
            | inr (output, returned, k) ↦ ground arith
          ]
      printed false tokens later = ground arith

  -- The printed tokens, one after the other.
  abbrev pub joined : (Token → Text) → List Token → Text
  joined f [] = []
  joined f (token ∷ tokens) = f token ++ joined f tokens

  print_tokens-joined :
      (f : Token → Text) (tokens : List Token) (output : Text)
      → ((out : Text) (token : Token) → x.print_append out token ≡ returns (out ++ f token))
      → print_tokens x tokens output ≡ returns (output ++ joined f tokens)
  unfolding print_tokens
  print_tokens-joined f [] output appends = ap returns (sym (append-nil output))
  print_tokens-joined f (token ∷ tokens) output appends =
      rw (print_tokens, appends output token)
        (print_tokens-joined f tokens (output ++ f token) appends
          ∙ ap returns (append_assoc output (f token) (joined f tokens)))

  -- If libhandlebars prints a token by appending its print to the output, `lexPrint` returns the
  -- prints of the lexer's tokens in their order, without the line ends and spaces at the end.
  pub lex-print :
      (f : Token → Text) (tmpl : Text) (tokens : List Token)
      → ((out : Text) (token : Token) → x.print_append out token ≡ returns (out ++ f token))
      → x.lex_ex tmpl ≡ returns tokens
      → lex x true tmpl ≡ ok (some (string (x.rtrim (joined f tokens) (lit "\r\n "))))
  unfolding lex lex_result php_handlebars_try
  lex-print f tmpl tokens appends lexed = rw (lexed, print_tokens-joined f tokens [] appends) refl
