-- ===== src/Classes/Instances.antt =====
-- Of what the exceptions and the VM are instances.
use php_handlebars.Base.{
  ◌≡◌, refl, Bool, true, false, ◌||◌, Option, none, some, List, [], ◌∷◌, ◌++◌, Text, lit, text_eq,
  arith,
}
use php_handlebars.Zend.Outcome.{
  ok, ExceptionClass, compile_exception, runtime_exception, invalid_binary_string_exception,
  zend_ce_exception,
}
use php_handlebars.Classes.{Class, ClassTable, pointee, has_name}
use php_handlebars.Classes.Exceptions.{Builtins}
use php_handlebars.Classes.Registration.{Host, register_classes}
use php_handlebars.Classes.Hierarchy.{table, host, Host-cases, register_classes-ok}

has_name-append :
    (n : Text) (l m : List Text) → has_name n (l ++ m) ≡ (has_name n l || has_name n m)
unfolding has_name
has_name-append n [] m = refl
has_name-append n (k ∷ l) m = ground (arith, has_name-append n l m)

-- An object of the class can be caught, or passed as an argument, under the name.
abbrev pub instance_of : Class → Text → Bool
instance_of c super = text_eq c.name super || has_name super c.supers

-- What PHP promises: its exceptions, and those of its standard library, are instances of `Exception`,
-- and they know nothing of the extension.
pub record IsPhp (b : Builtins) : Type 0 where
  pub is_exception : instance_of b.exception (lit "Exception") ≡ true
  pub is_runtime : instance_of b.spl_runtime_exception (lit "Exception") ≡ true
  pub is_foreign : instance_of b.exception (lit "Handlebars\\Exception") ≡ false

-- The class that the code hands to `zend_throw_exception`: the variable's, or PHP's own.
abbrev pub thrown_class : Builtins → ClassTable → ExceptionClass → Option Class
thrown_class b t compile_exception = pointee (lit "HandlebarsCompileException_ce_ptr") t
thrown_class b t runtime_exception = pointee (lit "HandlebarsRuntimeException_ce_ptr") t
thrown_class b t invalid_binary_string_exception =
    pointee (lit "HandlebarsInvalidBinaryStringException_ce_ptr") t
thrown_class b t zend_ce_exception = some b.exception

abbrev pub is_own : ExceptionClass → Bool
is_own zend_ce_exception = false
is_own _ = true

abbrev exception_class : Text → Class → Class
exception_class name p = record {
  name = name;
  is_interface = false;
  supers = (p.name ∷ p.supers) ++ lit "Handlebars\\Exception" ∷ [];
  methods = p.methods ++ [];
}

exception_class-instances :
    (name : Text) (p : Class)
    → instance_of p (lit "Exception") ≡ true
    → text_eq name (lit "Exception") ≡ false
    → (instance_of (exception_class name p) (lit "Exception") ≡ true)
      × (instance_of (exception_class name p) (lit "Handlebars\\Exception") ≡ true)
unfolding has_name
exception_class-instances name p h n =
    let tail = lit "Handlebars\\Exception" ∷ [] in
    let a = has_name-append (lit "Exception") (p.name ∷ p.supers) tail in
    let c = has_name-append (lit "Handlebars\\Exception") (p.name ∷ p.supers) tail in
    (ground (arith, a), ground (arith, c))

-- The three classes of the extension that it throws, in the table.
abbrev OwnClasses : Host → Type 0
OwnClasses h =
    (pointee (lit "HandlebarsCompileException_ce_ptr") (table h)
      ≡ some (exception_class (lit "Handlebars\\CompileException") h.builtins.exception))
    × (pointee (lit "HandlebarsRuntimeException_ce_ptr") (table h)
        ≡ some
            (exception_class (lit "Handlebars\\RuntimeException") h.builtins.spl_runtime_exception))
    × (pointee (lit "HandlebarsInvalidBinaryStringException_ce_ptr") (table h)
        ≡ some
            (exception_class (lit "Handlebars\\InvalidBinaryStringException") h.builtins.exception))

own_classes : (h : Host) → OwnClasses h
unfolding table register_classes
own_classes =
    Host-cases OwnClasses
      (λ b l ast. elim ast as (λ ast. OwnClasses (host b false l ast)) [
        | true ↦ (refl, refl, refl)
        | false ↦ (refl, refl, refl)
      ])
      (λ b ast. elim ast as (λ ast. OwnClasses (host b true none ast)) [
        | true ↦ (refl, refl, refl)
        | false ↦ (refl, refl, refl)
      ])
      λ b c ast. elim ast as (λ ast. OwnClasses (host b true (some c) ast)) [
        | true ↦ (refl, refl, refl)
        | false ↦ (refl, refl, refl)
      ]

-- The registration of the classes comes to its end, on every host. After it, what the extension
-- throws is an instance of PHP's `Exception`, and of `Handlebars\Exception` too unless it is PHP's
-- own class that is thrown; every class that is thrown is there by then.
pub thrown-instances :
    (h : Host) (e : ExceptionClass)
    → IsPhp h.builtins
    → (register_classes h ≡ ok (table h))
      × (c : Class) × (thrown_class h.builtins (table h) e ≡ some c)
      × (instance_of c (lit "Exception") ≡ true)
      × (instance_of c (lit "Handlebars\\Exception") ≡ is_own e)
thrown-instances h compile_exception p =
    let name = lit "Handlebars\\CompileException" in
    let q = h.builtins.exception in
    let (php, own) = exception_class-instances name q p.is_exception refl in
    (register_classes-ok h, exception_class name q, (own_classes h).0, php, own)
thrown-instances h runtime_exception p =
    let name = lit "Handlebars\\RuntimeException" in
    let q = h.builtins.spl_runtime_exception in
    let (php, own) = exception_class-instances name q p.is_runtime refl in
    (register_classes-ok h, exception_class name q, (own_classes h).1, php, own)
thrown-instances h invalid_binary_string_exception p =
    let name = lit "Handlebars\\InvalidBinaryStringException" in
    let q = h.builtins.exception in
    let (php, own) = exception_class-instances name q p.is_exception refl in
    (register_classes-ok h, exception_class name q, (own_classes h).2, php, own)
thrown-instances h zend_ce_exception p =
    (register_classes-ok h, h.builtins.exception, refl, p.is_exception, p.is_foreign)
