-- ===== src/Classes/Arguments.antt =====
-- The numbers of arguments that the methods declare, beside those that their bodies let through.
use php_handlebars.Base.{
  ℕ, zero, suc, ◌≡◌, refl, Bool, true, false, not, ◌&&◌, ◌||◌, ◌==◌, leb, some, List, [], ◌∷◌, ◌++◌,
  Text, lit, text_eq, length, get_elem?, arith,
}
use php_handlebars.Classes.ArgInfo.{ArgInfo, Parameters, unparsed, parses, MethodEntry}
use php_handlebars.Classes.Impl.{base_impl_methods}
use php_handlebars.Classes.Vm.{vm_methods}
use php_handlebars.Classes.Options.{options_methods}
use php_handlebars.Classes.Utils.{utils_methods, safe_string_methods}
use php_handlebars.Classes.Ast.{
  compiler_methods, parser_methods, tokenizer_methods, opcode_methods, program_methods,
  token_methods,
}

-- A method that has a body, with its class.
abbrev pub Owned : Type 0
Owned = Text × MethodEntry

abbrev owned : Text → List MethodEntry → List Owned
owned class [] = []
owned class (m ∷ ms) = (class, m) ∷ owned class ms

abbrev pub all_methods : List Owned
all_methods =
    owned (lit "BaseImpl") base_impl_methods
    ++ (owned (lit "VM") vm_methods
        ++ (owned (lit "Options") options_methods
            ++ (owned (lit "Utils") utils_methods
                ++ (owned (lit "SafeString") safe_string_methods
                    ++ (owned (lit "Compiler") compiler_methods
                        ++ (owned (lit "Parser") parser_methods
                            ++ (owned (lit "Tokenizer") tokenizer_methods
                                ++ (owned (lit "Opcode") opcode_methods
                                    ++ (owned (lit "Program") program_methods
                                        ++ owned (lit "Token") token_methods)))))))))

-- A call with so many arguments is what the argument information says a call can be.
abbrev pub declares : ArgInfo → ℕ → Bool
declares a n = leb a.required n && leb n (length a.args)

-- `ZEND_PARSE_PARAMETERS_START` throws for any other number.
abbrev pub lets_through : Parameters → ℕ → Bool
lets_through unparsed n = true
lets_through (parses least most) n = leb least n && leb n most

abbrev pub is_method : Text → Text → Owned → Bool
is_method class name (c, m) = text_eq c class && text_eq m.name name

-- The constructor of a program declares that its third argument may be left out, and insists on it.
abbrev pub is_program_construct : Owned → Bool
is_program_construct o = is_method (lit "Program") (lit "__construct") o

-- These declare fewer calls than their bodies let through: constructors that can do without their
-- argument, the methods that read a context and data that they do not declare, and `createFrame`, which
-- declares that it needs two arguments and names one.
abbrev pub is_narrow : Owned → Bool
is_narrow o =
    is_method (lit "VM") (lit "__construct") o
    || (is_method (lit "Options") (lit "__construct") o
        || (is_method (lit "Options") (lit "fn") o
            || (is_method (lit "Options") (lit "inverse") o
                || is_method (lit "Utils") (lit "createFrame") o)))

abbrev is_parsed : Parameters → Bool
is_parsed unparsed = false
is_parsed (parses _ _) = true

-- A call that the body lets through, and that is not declared.
abbrev pub undeclared : MethodEntry → ℕ → Bool
undeclared m n =
    is_parsed m.parameters && (lets_through m.parameters n && not (declares m.arginfo n))

-- The test, once for all numbers: the ends of the two ranges are compared.
abbrev ranges : Bool → Bool → ℕ → ℕ → Parameters → Bool
ranges program narrow required most unparsed = not program
ranges true narrow required most (parses l k) = required == 2 && (most == 3 && (l == 3 && k == 3))
ranges false narrow required most (parses l k) =
    leb l required && (leb most k && (narrow || (leb required l && leb k most)))

ranges-calls :
    (program narrow : Bool) (required most n : ℕ) (p : Parameters)
    → ranges program narrow required most p ≡ true
    → ((leb required n && leb n most) && not (lets_through p n) ≡ (program && n == 2))
      × ((is_parsed p && (lets_through p n && not (leb required n && leb n most))) && not narrow
          ≡ false)
ranges-calls true narrow required most n unparsed h = cc
ranges-calls false narrow required most n unparsed h = (ground arith, refl)
ranges-calls true narrow required most n (parses l k) h = (ground arith, ground arith)
ranges-calls false narrow required most n (parses l k) h = (ground arith, ground arith)

abbrev InRange : Owned → Type 0
InRange o =
    ranges (is_program_construct o) (is_narrow o) o.1.arginfo.required (length o.1.arginfo.args)
      o.1.parameters
    ≡ true

abbrev all_in_range : List Owned → Bool
all_in_range [] = true
all_in_range (o ∷ l) =
    ranges (is_program_construct o) (is_narrow o) o.1.arginfo.required (length o.1.arginfo.args)
      o.1.parameters
    && all_in_range l

get_elem?-InRange :
    (l : List Owned) (i : ℕ) (o : Owned)
    → all_in_range l ≡ true
    → get_elem? l i ≡ some o
    → InRange o
get_elem?-InRange [] i o h e = cc
get_elem?-InRange (x ∷ l) zero o h e = ground arith
get_elem?-InRange (x ∷ l) (suc i) o h e = get_elem?-InRange l i o (ground arith) e

-- Of all methods that the extension defines and all numbers of arguments: a call that the argument
-- information declares is refused exactly if it is that of a program's constructor with two
-- arguments; and where a body parses its arguments, it lets a call through that is not declared at most
-- for the constructors of the VM and of the options, for `fn`, `inverse` and `createFrame`.
pub declares-lets_through :
    (i n : ℕ) (o : Owned)
    → get_elem? all_methods i ≡ some o
    → (declares o.1.arginfo n && not (lets_through o.1.parameters n)
        ≡ (is_program_construct o && n == 2))
      × (undeclared o.1 n && not (is_narrow o) ≡ false)
declares-lets_through i n o h =
    ranges-calls (is_program_construct o) (is_narrow o) o.1.arginfo.required
      (length o.1.arginfo.args) n o.1.parameters (get_elem?-InRange all_methods i o refl h)
