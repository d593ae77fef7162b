-- ===== src/Classes.antt =====
-- The classes of the extension: what the `PHP_MINIT` functions of src/*.c register with PHP, from
-- which each class comes, and which methods it has with their argument information.
pub mod ArgInfo
pub mod Impl
pub mod Vm
pub mod Options
pub mod Utils
pub mod Ast
pub mod Constants
pub mod Exceptions
pub mod Registration
pub mod Hierarchy
pub mod Instances
pub mod Signatures
pub mod Arguments
use php_handlebars.Base.{
  Bool, true, false, not, ◌&&◌, ◌||◌, Option, none, some, List, [], ◌∷◌, ◌++◌, Text, text_eq,
  if◌then◌else◌,
}
use php_handlebars.Zend.Outcome.{Outcome, ok, aborted, ◌>>=◌}
use php_handlebars.Classes.ArgInfo.{MethodEntry}

-- A `zend_class_entry`: all that it extends or implements, and its methods with those it inherits, the
-- class's own first.
pub record Class : Type 0 where
  pub name : Text
  pub is_interface : Bool
  pub supers : List Text
  pub methods : List MethodEntry

-- The classes that are registered, the latest first; the variables of the extension that point to a
-- class, by their names; and the second names of classes.
pub record ClassTable : Type 0 where
  pub classes : List Class
  pub pointers : List (Text × Text)
  pub aliases : List (Text × Text)

abbrev pub no_classes : ClassTable
no_classes = record { classes = []; pointers = []; aliases = [] }

-- The value under a name in a list of pairs.
unfoldable pub assoc : Text → List (Text × Text) → Option Text
assoc k [] = none
assoc k ((n, v) ∷ l) = let rest = assoc k l in if text_eq n k then some v else rest

unfoldable pub find_class : Text → List Class → Option Class
find_class n [] = none
find_class n (c ∷ cs) = let rest = find_class n cs in if text_eq c.name n then some c else rest

-- The class that a variable points to; a variable that was not set is NULL.
unfoldable pub pointee : Text → ClassTable → Option Class
unfolding assoc find_class
pointee var t = elim (assoc var t.pointers) [ none ↦ none | some n ↦ find_class n t.classes ]

abbrev pub supers_of : Option Class → List Text
supers_of none = []
supers_of (some c) = c.name ∷ c.supers

abbrev pub methods_of : Option Class → List MethodEntry
methods_of none = []
methods_of (some c) = c.methods

-- A new class, to which the variable then points. Without a parent it inherits nothing.
unfoldable pub register :
    Text → Text → Bool → List MethodEntry → Option Class → ClassTable → ClassTable
register var name is_interface methods parent t = record t {
  classes =
      record {
        name = name;
        is_interface = is_interface;
        supers = supers_of parent;
        methods = methods ++ methods_of parent;
      }
      ∷ t.classes;
  pointers = (var, name) ∷ t.pointers;
}

-- `zend_register_internal_interface`, `zend_register_internal_class` and
-- `zend_register_internal_class_ex`
unfoldable pub register_interface : Text → Text → List MethodEntry → ClassTable → ClassTable
unfolding register
register_interface var name methods t = register var name true methods none t

unfoldable pub register_class : Text → Text → List MethodEntry → ClassTable → ClassTable
unfolding register
register_class var name methods t = register var name false methods none t

unfoldable pub register_class_ex :
    Text → Text → List MethodEntry → Option Class → ClassTable → ClassTable
unfolding register
register_class_ex var name methods parent t = register var name false methods parent t

-- What a class gets from an interface: its names, and its methods behind those of the class.
abbrev pub with_interface : Class → Class → Class
with_interface i c = record c {
  supers = c.supers ++ i.name ∷ i.supers;
  methods = c.methods ++ i.methods;
}

unfoldable pub update_class : Text → Class → List Class → List Class
update_class n i [] = []
update_class n i (c ∷ cs) =
    (if text_eq c.name n then with_interface i c else c) ∷ update_class n i cs

-- `zend_class_implements`: it reads through the pointers to the class and to the interface.
unfoldable pub class_implements : Text → Option Class → ClassTable → Outcome ClassTable
unfolding pointee update_class
class_implements var none t = aborted
class_implements var (some i) t = elim (pointee var t) [
  | none ↦ aborted
  | some c ↦ ok (record t { classes = update_class c.name i t.classes })
]

-- `instanceof`, by names: the class itself, or what it comes from.
unfoldable pub has_name : Text → List Text → Bool
has_name n [] = false
has_name n (m ∷ l) = text_eq m n || has_name n l

-- The class of a name, which may be an alias.
unfoldable pub named_class : Text → ClassTable → Option Class
unfolding assoc find_class
named_class n t = elim (assoc n t.aliases) [
  | none ↦ find_class n t.classes
  | some m ↦ find_class m t.classes
]

unfoldable pub is_instance : ClassTable → Text → Text → Bool
unfolding named_class has_name
is_instance t n super = elim (named_class n t) [
  | none ↦ false
  | some c ↦ text_eq c.name super || has_name super c.supers
]
