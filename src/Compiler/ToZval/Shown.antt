-- ===== src/Compiler/ToZval/Shown.antt =====
-- What a PHP program is shown of a program of libhandlebars, and how it reads it from the object that
-- src/compiler.c makes.
pub mod ReadBack
use php_handlebars.Base.{
  append-nil, sym, suc, true, false, not, ◌≡◌, refl, ap, ◌∙◌, Bool, Option, none, some, List, [],
  ◌∷◌, ◌++◌, Text, map, arith, leb, ◌&&◌, ◌==◌, if◌then◌else◌,
}
use php_handlebars.Zend.{ℤ}
use mathlib.Core.List.{map-append}
use php_handlebars.Zend.Tree.{
  Tree, Entries, end, entry, bool, long, string, array, object, opcode_class, program_class,
}
use php_handlebars.Zend.Tree.Lists.{list_entries, add_next-list}
use php_handlebars.Libhandlebars.{Flags, string_params, track_ids, alternate_decorators}
use php_handlebars.Vm.ProcessOptions.Requested.{has_flag}
use php_handlebars.Compiler.{
  Operand, Opcode, ResultFlags, Program, handlebars_program, Programs, no_programs, child, Opcodes,
}
use php_handlebars.Compiler.ToZval.{
  operand_append_zval, is_null, append_third, opcode_args, construct_opcode, opcode_to_zval,
  program_to_zval,
}
use php_handlebars.Compiler.ToZval.Properties.{
  trees, list_of, add_strings-list, decorators_property, program_to_zval-properties,
}

-- What a PHP program is told of an opcode.
pub record ShownOpcode : Type 0 where
  pub opcode : Text
  pub args : List Operand

-- What it is told of a program; the decorators may be withheld.
mutual
  pub data Shown : Type 0 where
    shown : List ShownOpcode → ShownList → Decorators → ℤ → ResultFlags → Bool → Bool → Shown

  pub data ShownList : Type 0 where
    last : ShownList
    next : Shown → ShownList → ShownList

  pub data Decorators : Type 0 where
    withheld : Decorators
    given : ShownList → Decorators

module _ {ℓ κ μ} {A : Type ℓ} {B : Type κ} {C : Type μ} where
  abbrev pub both : (A → B → C) → Option A → Option B → Option C
  both f (some a) (some b) = some (f a b)
  both f _ _ = none

abbrev pub both3 {ℓ κ μ ν} :
    {A : Type ℓ} {B : Type κ} {C : Type μ} {D : Type ν}
    → (A → B → C → D)
    → Option A
    → Option B
    → Option C
    → Option D
both3 f (some a) (some b) (some c) = some (f a b c)
both3 f _ _ _ = none

abbrev pub read_texts : Entries → Option (List Text)
read_texts end = some []
read_texts (entry k (string s) b) = both (λ x xs. x ∷ xs) (some s) (read_texts b)
read_texts (entry k _ b) = none

abbrev pub option_map {ℓ κ} : {A : Type ℓ} {B : Type κ} → (A → B) → Option A → Option B
option_map f none = none
option_map f (some a) = some (f a)

abbrev pub read_operand : Tree → Option Operand
read_operand Tree.null = some Operand.null
read_operand (bool b) = some (Operand.boolean b)
read_operand (long n) = some (Operand.long n)
read_operand (string s) = some (Operand.string s)
read_operand (array b) = option_map Operand.array (read_texts b)
read_operand _ = none

abbrev pub read_operands : Entries → Option (List Operand)
read_operands end = some []
read_operands (entry k v b) = both (λ x xs. x ∷ xs) (read_operand v) (read_operands b)

abbrev pub read_opcode : Tree → Option ShownOpcode
read_opcode (object opcode_class (entry k (string s) (entry j (array args) end))) =
    option_map (λ a. record { opcode = s; args = a }) (read_operands args)
read_opcode _ = none

abbrev pub read_opcodes : Entries → Option (List ShownOpcode)
read_opcodes end = some []
read_opcodes (entry k v b) = both (λ x xs. x ∷ xs) (read_opcode v) (read_opcodes b)

abbrev pub read_bool : Tree → Bool
read_bool (bool b) = b
read_bool _ = Bool.false

abbrev pub read_long : Tree → ℤ
read_long (long n) = n
read_long _ = ℤ.pos 0

-- The object of a program, by its properties in their order.
unfoldable mutual
  pub read_program : Tree → Option Shown
  read_program
        (object program_class (
          entry k1 (array opcodes) (
            entry k2 (array children) (
              entry k3 decorators (
                entry k4 simple (
                  entry k5 depths (
                    entry k6 partial (
                      entry k7 uses
                        (entry k8 params (entry k9 strings (entry k10 ids end))))))))))) =
      both3
        (λ xs ys d.
          shown xs ys d (read_long params)
            (record {
              use_depths = read_bool depths;
              use_partial = read_bool partial;
              use_decorators = read_bool uses;
            })
            (read_bool strings) (read_bool ids))
        (read_opcodes opcodes) (read_programs children) (read_decorators decorators)
  read_program _ = none

  pub read_programs : Entries → Option ShownList
  read_programs end = some last
  read_programs (entry k v b) = both next (read_program v) (read_programs b)

  pub read_decorators : Tree → Option Decorators
  read_decorators Tree.null = some withheld
  read_decorators (array b) = option_map given (read_programs b)
  read_decorators _ = none

-- The operands that an opcode shows: as many as its type has, but a null third one of
-- `invoke_ambiguous`.
abbrev pub one_if : Bool → Operand → List Operand
one_if true x = x ∷ []
one_if false x = []

abbrev pub shown_operands : Opcodes → Opcode → List Operand
shown_operands o opcode =
    let num = o.num_operands opcode.type_number in
    let third = leb 3 num && not (opcode.type_number == o.invoke_ambiguous && is_null opcode.op3) in
    ((one_if (leb 1 num) opcode.op1 ++ one_if (leb 2 num) opcode.op2) ++ one_if third opcode.op3)
    ++ one_if (leb 4 num) opcode.op4

abbrev pub shown_opcode : Opcodes → Opcode → ShownOpcode
shown_opcode o opcode = record {
  opcode = o.readable_type opcode.type_number;
  args = shown_operands o opcode;
}

abbrev mutual
  pub shown_program : Opcodes → Program → Shown
  shown_program o (handlebars_program opcodes children decorators block_params result_flags flags) =
      shown (map (shown_opcode o) opcodes) (shown_programs o children)
        (if has_flag alternate_decorators flags
          then given (shown_programs o decorators)
          else withheld)
        block_params result_flags (has_flag string_params flags) (has_flag track_ids flags)

  pub shown_programs : Opcodes → Programs → ShownList
  shown_programs o no_programs = last
  shown_programs o (child p ps) = next (shown_program o p) (shown_programs o ps)
