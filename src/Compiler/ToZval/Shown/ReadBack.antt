-- ===== src/Compiler/ToZval/Shown/ReadBack.antt =====
-- Reading a program back from the object that src/compiler.c makes of it.
use php_handlebars.Base.{
  append-nil, sym, suc, true, false, not, ◌≡◌, refl, ap, ◌∙◌, Bool, some, List, [], ◌∷◌, ◌++◌, Text,
  map, arith, leb, ◌&&◌, ◌==◌, if◌then◌else◌,
}
use mathlib.Core.List.{map-append}
use php_handlebars.Zend.Tree.{Tree, Entries, bool, long, string}
use php_handlebars.Zend.Tree.Lists.{list_entries, add_next-list}
use php_handlebars.Libhandlebars.{alternate_decorators}
use php_handlebars.Vm.ProcessOptions.Requested.{has_flag}
use php_handlebars.Compiler.{
  Operand, Opcode, Program, handlebars_program, Programs, no_programs, child, Opcodes,
}
use php_handlebars.Compiler.ToZval.{
  operand_append_zval, is_null, append_third, opcode_args, construct_opcode, opcode_to_zval,
  program_to_zval,
}
use php_handlebars.Compiler.ToZval.Properties.{
  trees, list_of, add_strings-list, program_to_zval-properties,
}
use php_handlebars.Compiler.ToZval.Shown.{
  withheld, given, read_texts, read_operand, read_operands, read_opcode, read_opcodes, read_program,
  read_programs, read_decorators, one_if, shown_operands, shown_opcode, shown_program,
  shown_programs,
}

read_texts-list :
    (tmp : List Text) (i : _) → read_texts (list_entries i (map string tmp)) ≡ some tmp
read_texts-list [] i = refl
read_texts-list (s ∷ tmp) i = ground (arith, read_texts-list tmp (suc i))

-- The PHP value of an operand.
abbrev operand_tree : Operand → Tree
operand_tree Operand.null = Tree.null
operand_tree (Operand.boolean b) = bool b
operand_tree (Operand.long n) = long n
operand_tree (Operand.string s) = string s
operand_tree (Operand.array tmp) = list_of (map string tmp)

read_operand-tree : (x : Operand) → read_operand (operand_tree x) ≡ some x
read_operand-tree Operand.null = refl
read_operand-tree (Operand.boolean b) = refl
read_operand-tree (Operand.long n) = refl
read_operand-tree (Operand.string s) = refl
read_operand-tree (Operand.array tmp) = ground (arith, read_texts-list tmp 0)

operand_append-list :
    (x : Operand) (vs : List Tree)
    → operand_append_zval x (list_entries 0 vs) ≡ list_entries 0 (vs ++ operand_tree x ∷ [])
unfolding operand_append_zval
operand_append-list Operand.null vs = add_next-list vs _
operand_append-list (Operand.boolean b) vs = add_next-list vs _
operand_append-list (Operand.long n) vs = add_next-list vs _
operand_append-list (Operand.string s) vs = add_next-list vs _
operand_append-list (Operand.array tmp) vs = rw (add_strings-list tmp) (add_next-list vs _)

read_operands-list :
    (xs : List Operand) (i : _) → read_operands (list_entries i (map operand_tree xs)) ≡ some xs
read_operands-list [] i = refl
read_operands-list (x ∷ xs) i = ground (arith, read_operand-tree x, read_operands-list xs (suc i))

-- Operands as a PHP list.
abbrev operand_list : List Operand → Entries
operand_list xs = list_entries 0 (map operand_tree xs)

append_if :
    (c : Bool) (x : Operand) (xs : List Operand)
    → (if c then operand_append_zval x (operand_list xs) else operand_list xs)
      ≡ operand_list (xs ++ one_if c x)
append_if false x xs = ap operand_list (sym (append-nil xs))
append_if true x xs =
    operand_append-list x (map operand_tree xs)
    ∙ ap (list_entries 0) (sym (map-append operand_tree xs (x ∷ [])))

append_third-list :
    (o : Opcodes) (opcode : Opcode) (c : Bool) (xs : List Operand)
    → (if c then append_third o opcode (operand_list xs) else operand_list xs)
      ≡ operand_list (
          xs
          ++ one_if
              (c && not (opcode.type_number == o.invoke_ambiguous && is_null opcode.op3))
              opcode.op3)
unfolding append_third
append_third-list o opcode c xs =
    ground (arith, append_if true opcode.op3 xs, append_if false opcode.op3 xs)

opcode_args-list :
    (o : Opcodes) (opcode : Opcode) → opcode_args o opcode ≡ operand_list (shown_operands o opcode)
unfolding opcode_args
opcode_args-list o opcode =
    let num = o.num_operands opcode.type_number in
    rw (append_if (leb 1 num) opcode.op1 []) (
      rw (append_if (leb 2 num) opcode.op2 (one_if (leb 1 num) opcode.op1))
        (rw (append_third-list o opcode (leb 3 num) _) (append_if (leb 4 num) opcode.op4 _)))

read_opcode-shown :
    (o : Opcodes) (opcode : Opcode)
    → read_opcode (opcode_to_zval o opcode) ≡ some (shown_opcode o opcode)
unfolding opcode_to_zval construct_opcode
read_opcode-shown o opcode =
    rw (opcode_args-list o opcode) (rw (read_operands-list (shown_operands o opcode) 0) refl)

read_opcodes-list :
    (o : Opcodes) (opcodes : List Opcode) (i : _)
    → read_opcodes (list_entries i (map (opcode_to_zval o) opcodes))
      ≡ some (map (shown_opcode o) opcodes)
read_opcodes-list o [] i = refl
read_opcodes-list o (opcode ∷ opcodes) i =
    rw (read_opcode-shown o opcode) (rw (read_opcodes-list o opcodes (suc i)) refl)

read_decorators-shown :
    (o : Opcodes) (c : Bool) (decorators : Programs)
    → read_programs (list_entries 0 (trees o decorators)) ≡ some (shown_programs o decorators)
    → read_decorators (if c then list_of (trees o decorators) else Tree.null)
      ≡ some (if c then given (shown_programs o decorators) else withheld)
unfolding read_program
read_decorators-shown o true decorators h = rw h refl
read_decorators-shown o false decorators h = refl

mutual
  unfolding read_program

  shown-lem :
      (o : Opcodes) (p : Program) → read_program (program_to_zval o p) ≡ some (shown_program o p)
  shown-lem o (handlebars_program opcodes children decorators block_params result_flags flags) =
      rw (program_to_zval-properties o opcodes children decorators block_params result_flags flags)
        (rw (read_opcodes-list o opcodes 0) (
          rw (shown_programs-lem o children 0) (
            rw
              (read_decorators-shown o (has_flag alternate_decorators flags) decorators
                (shown_programs-lem o decorators 0))
              refl)))

  shown_programs-lem :
      (o : Opcodes) (ps : Programs) (i : _)
      → read_programs (list_entries i (trees o ps)) ≡ some (shown_programs o ps)
  shown_programs-lem o no_programs i = refl
  shown_programs-lem o (child p ps) i =
      rw (shown-lem o p) (rw (shown_programs-lem o ps (suc i)) refl)

-- Reading the object that a program is converted to gives back the program as far as it is shown:
-- every opcode with its type's name and as many operands as the type has, except a null third operand
-- of `invoke_ambiguous`, every child, the decorators exactly with the flag for alternate decorators,
-- the number of block parameters and the flags.
pub read_program-to_zval :
    (o : Opcodes) (p : Program) → read_program (program_to_zval o p) ≡ some (shown_program o p)
read_program-to_zval o p = shown-lem o p
