-- ===== src/Compiler/ToZval/Properties.antt =====
-- The properties of the objects that the conversions of src/compiler.c make.
use php_handlebars.Base.{◌≡◌, refl, ◌∙◌, false, List, [], ◌∷◌, Text, lit, map, arith, if◌then◌else◌}
use php_handlebars.Zend.{name}
use php_handlebars.Zend.Tree.{
  Tree, Entries, end, entry, bool, long, string, array, object, program_class,
}
use php_handlebars.Zend.Tree.Lists.{list_entries, add_all, add_all-list}
use php_handlebars.Libhandlebars.{Flags, string_params, track_ids, alternate_decorators}
use php_handlebars.Vm.ProcessOptions.Requested.{has_flag}
use php_handlebars.Compiler.{
  Opcode, ResultFlags, handlebars_program, Programs, no_programs, child, Opcodes,
}
use php_handlebars.Compiler.ToZval.{
  add_strings, opcode_to_zval, opcodes_to_zval, construct_program, set_flag, set_flags,
  set_decorators, program_to_zval, programs_to_zval,
}

-- The converted programs, in order.
abbrev pub trees : Opcodes → Programs → List Tree
trees o no_programs = []
trees o (child p ps) = program_to_zval o p ∷ trees o ps

-- A PHP list of values.
abbrev pub list_of : List Tree → Tree
list_of vs = array (list_entries 0 vs)

pub add_strings-list : (tmp : List Text) → add_strings tmp end ≡ list_entries 0 (map string tmp)
unfolding add_strings
add_strings-list tmp = all tmp end ∙ add_all-list [] (map string tmp)
  where
    all : (tmp : List Text) (b : Entries) → add_strings tmp b ≡ add_all (map string tmp) b
    all [] b = refl
    all (s ∷ tmp) b = all tmp _

pub opcodes_to_zval-list :
    (o : Opcodes) (opcodes : List Opcode)
    → opcodes_to_zval o opcodes end ≡ list_entries 0 (map (opcode_to_zval o) opcodes)
unfolding opcodes_to_zval
opcodes_to_zval-list o opcodes = all opcodes end ∙ add_all-list [] (map (opcode_to_zval o) opcodes)
  where
    all :
        (opcodes : List Opcode) (b : Entries)
        → opcodes_to_zval o opcodes b ≡ add_all (map (opcode_to_zval o) opcodes) b
    all [] b = refl
    all (opcode ∷ opcodes) b = all opcodes _

pub programs_to_zval-list :
    (o : Opcodes) (ps : Programs) → programs_to_zval o ps end ≡ list_entries 0 (trees o ps)
unfolding program_to_zval
programs_to_zval-list o ps = all ps end ∙ add_all-list [] (trees o ps)
  where
    all : (ps : Programs) (b : Entries) → programs_to_zval o ps b ≡ add_all (trees o ps) b
    all no_programs b = refl
    all (child p ps) b = all ps _

-- The decorators' property: null without the flag for alternate decorators.
abbrev pub decorators_property : Opcodes → Flags → Programs → Tree
decorators_property o flags decorators =
    if has_flag alternate_decorators flags then list_of (trees o decorators) else Tree.null

-- A program becomes an object of `Handlebars\Program` with its declared properties in their order:
-- the converted opcodes and children as lists in their order, the decorators so too, or null without
-- the flag for alternate decorators, `isSimple` always false, the number of the block parameters,
-- and each other flag true exactly if the program has it.
pub program_to_zval-properties :
    (o : Opcodes) (opcodes : List Opcode) (children decorators : Programs) (block_params : _)
    (result_flags : ResultFlags) (flags : Flags)
    → program_to_zval o
        (handlebars_program opcodes children decorators block_params result_flags flags)
      ≡ object program_class (
          entry (name (lit "opcodes")) (list_of (map (opcode_to_zval o) opcodes)) (
            entry (name (lit "children")) (list_of (trees o children)) (
              entry (name (lit "decorators")) (decorators_property o flags decorators) (
                entry (name (lit "isSimple")) (bool false) (
                  entry (name (lit "useDepths")) (bool result_flags.use_depths) (
                    entry (name (lit "usePartial")) (bool result_flags.use_partial) (
                      entry (name (lit "useDecorators")) (bool result_flags.use_decorators) (
                        entry (name (lit "blockParams")) (long block_params) (
                          entry (name (lit "stringParams")) (bool (has_flag string_params flags)) (
                            entry
                              (name (lit "trackIds"))
                              (bool (has_flag track_ids flags))
                              end))))))))))
unfolding program_to_zval construct_program set_flag set_flags set_decorators
program_to_zval-properties o opcodes children decorators block_params result_flags flags =
    rw (← opcodes_to_zval-list o opcodes) (
      rw (← programs_to_zval-list o children)
        (rw (← programs_to_zval-list o decorators) (ground arith)))
