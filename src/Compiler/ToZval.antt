-- ===== src/Compiler/ToZval.antt =====
-- The conversions of src/compiler.c, with the constructors of src/opcode.c and src/program.c.
pub mod Shown
pub mod Properties
use php_handlebars.Base.{
  ℕ, Bool, true, false, ◌&&◌, List, [], ◌∷◌, Text, lit, ◌==◌, leb, if◌then◌else◌,
}
use php_handlebars.Zend.{ℤ, pos}
use php_handlebars.Zend.Tree.{
  Tree, Entries, end, bool, long, string, array, object, opcode_class, program_class,
  update_property, add_next,
}
use php_handlebars.Libhandlebars.{
  Flags, CompilerFlag, string_params, track_ids, alternate_decorators,
}
use php_handlebars.Vm.ProcessOptions.Requested.{has_flag}
use php_handlebars.Compiler.{
  Operand, Opcode, ResultFlags, Program, handlebars_program, Programs, no_programs, child, Opcodes,
}

unfoldable pub add_strings : List Text → Entries → Entries
add_strings [] current = current
add_strings (s ∷ tmp) current = add_strings tmp (add_next (string s) current)

unfoldable pub operand_append_zval : Operand → Entries → Entries
unfolding add_strings
operand_append_zval Operand.null arr = add_next Tree.null arr
operand_append_zval (Operand.boolean b) arr = add_next (bool b) arr
operand_append_zval (Operand.long n) arr = add_next (long n) arr
operand_append_zval (Operand.string s) arr = add_next (string s) arr
operand_append_zval (Operand.array tmp) arr = add_next (array (add_strings tmp end)) arr

-- The typed properties of `Handlebars\Opcode`.
abbrev pub opcode_properties : Entries
opcode_properties =
    update_property (lit "args") Tree.undef (update_property (lit "opcode") Tree.undef end)

-- `Handlebars\Opcode::__construct`
unfoldable pub construct_opcode : Text → Entries → Entries → Entries
construct_opcode opcode args this =
    update_property (lit "args") (array args) (update_property (lit "opcode") (string opcode) this)

unfoldable pub is_null : Operand → Bool
is_null Operand.null = true
is_null _ = false

module _ (o : Opcodes) where
  -- The third operand of `invoke_ambiguous` is left out if it is null.
  unfoldable pub append_third : Opcode → Entries → Entries
  unfolding operand_append_zval is_null
  append_third opcode args =
      if opcode.type_number == o.invoke_ambiguous && is_null opcode.op3
      then args
      else operand_append_zval opcode.op3 args

  unfoldable pub opcode_args : Opcode → Entries
  unfolding operand_append_zval append_third
  opcode_args opcode =
      let num = o.num_operands opcode.type_number in
      let args1 = if leb 1 num then operand_append_zval opcode.op1 end else end in
      let args2 = if leb 2 num then operand_append_zval opcode.op2 args1 else args1 in
      let args3 = if leb 3 num then append_third opcode args2 else args2 in
      if leb 4 num then operand_append_zval opcode.op4 args3 else args3

  unfoldable pub opcode_to_zval : Opcode → Tree
  unfolding opcode_args construct_opcode
  opcode_to_zval opcode =
      object opcode_class (
        construct_opcode (o.readable_type opcode.type_number) (opcode_args opcode)
          opcode_properties)

  unfoldable pub opcodes_to_zval : List Opcode → Entries → Entries
  unfolding opcode_to_zval
  opcodes_to_zval [] current = current
  opcodes_to_zval (opcode ∷ opcodes) current =
      opcodes_to_zval opcodes (add_next (opcode_to_zval opcode) current)

-- The properties of `Handlebars\Program` with their declared values.
abbrev pub program_properties : Entries
program_properties =
    let p1 = update_property (lit "opcodes") Tree.null end in
    let p2 = update_property (lit "children") Tree.null p1 in
    let p3 = update_property (lit "decorators") Tree.null p2 in
    let p4 = update_property (lit "isSimple") (bool false) p3 in
    let p5 = update_property (lit "useDepths") (bool false) p4 in
    let p6 = update_property (lit "usePartial") (bool false) p5 in
    let p7 = update_property (lit "useDecorators") (bool false) p6 in
    let p8 = update_property (lit "blockParams") (long (pos 0)) p7 in
    let p9 = update_property (lit "stringParams") (bool false) p8 in
    update_property (lit "trackIds") (bool false) p9

-- `Handlebars\Program::__construct`
unfoldable pub construct_program : Entries → Entries → ℤ → Entries → Entries
construct_program opcodes children block_params this =
    let p1 = update_property (lit "opcodes") (array opcodes) this in
    let p2 = update_property (lit "children") (array children) p1 in
    update_property (lit "blockParams") (long block_params) p2

unfoldable pub set_flag : Bool → Text → Entries → Entries
set_flag on property this = if on then update_property property (bool true) this else this

unfoldable pub set_flags : ResultFlags → Flags → Entries → Entries
unfolding set_flag
set_flags result_flags flags this =
    let p1 = set_flag result_flags.use_depths (lit "useDepths") this in
    let p2 = set_flag result_flags.use_partial (lit "usePartial") p1 in
    let p3 = set_flag result_flags.use_decorators (lit "useDecorators") p2 in
    let p4 = set_flag (has_flag string_params flags) (lit "stringParams") p3 in
    set_flag (has_flag track_ids flags) (lit "trackIds") p4

-- The decorators are converted only with the flag for alternate decorators.
unfoldable pub set_decorators : Flags → Entries → Entries → Entries
set_decorators flags decorators this =
    if has_flag alternate_decorators flags
    then update_property (lit "decorators") (array decorators) this
    else this

unfoldable mutual
  unfolding opcodes_to_zval construct_program set_flags set_decorators

  pub program_to_zval : Opcodes → Program → Tree
  program_to_zval o
        (handlebars_program opcodes children decorators block_params result_flags flags) =
      let opcodes' = opcodes_to_zval o opcodes end in
      let children' = programs_to_zval o children end in
      let decorators' = programs_to_zval o decorators end in
      let this = construct_program opcodes' children' block_params program_properties in
      object program_class (set_decorators flags decorators' (set_flags result_flags flags this))

  pub programs_to_zval : Opcodes → Programs → Entries → Entries
  programs_to_zval o no_programs current = current
  programs_to_zval o (child p ps) current =
      programs_to_zval o ps (add_next (program_to_zval o p) current)
