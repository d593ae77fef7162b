-- ===== src/Tests/Compiler.antt =====
-- The theorems on src/compiler.c at a small program.
use php_handlebars.Base.{◌≡◌, refl, true, false, Option, none, some, [], ◌∷◌, Text, lit, length}
use php_handlebars.Zend.{pos, Zval, end, bucket, name, is_true}
use php_handlebars.Zend.Outcome.{ok, ◌>>=◌}
use php_handlebars.Zend.Tree.{Tree, Entries, entry, bool, long, object, program_class}
use php_handlebars.Libhandlebars.{Library, LibResult, returns, raises, string_params, LibError}
use php_handlebars.Vm.Compile.{serialize_program, packed, vm_compile}
use php_handlebars.Compiler.{
  Operand, Opcode, Program, handlebars_program, no_programs, child, Opcodes,
}
use php_handlebars.Compiler.ToZval.{program_to_zval}
use php_handlebars.Compiler.ToZval.Properties.{list_of, program_to_zval-properties}
use php_handlebars.Compiler.ToZval.Shown.{read_program, shown_program}
use php_handlebars.Compiler.ToZval.Shown.ReadBack.{read_program-to_zval}
use php_handlebars.Compiler.Method.{deref_options, print_or_convert, compile}
use php_handlebars.Compiler.Method.Stages.{compile-same_program}

-- The type of an opcode is its number of operands, and 3 is `invoke_ambiguous`.
abbrev pub test_opcodes : Opcodes
test_opcodes = record {
  readable_type = λ n. n ∷ [];
  num_operands = λ n. n;
  invoke_ambiguous = 3;
  print = λ p. returns (lit "printed");
}

abbrev lookup_a : Opcode
lookup_a = record {
  type_number = 3;
  op1 = Operand.string (lit "a");
  op2 = Operand.array (lit "b" ∷ lit "c" ∷ []);
  op3 = Operand.null;
  op4 = Operand.boolean true;
}

abbrev leaf : Program
leaf =
    handlebars_program [] no_programs no_programs (pos 0)
      (record { use_depths = true; use_partial = false; use_decorators = false }) []

abbrev small_program : Program
small_program =
    handlebars_program (lookup_a ∷ []) (child leaf no_programs) (child leaf no_programs) (pos 1)
      (record { use_depths = false; use_partial = true; use_decorators = false })
      (string_params ∷ [])

-- Every template but the empty one compiles to the small program.
abbrev no_template : LibError
no_template = record { num = pos 1; message = lit "empty"; external = false }

abbrev parse_some : Text → LibResult Text
parse_some [] = raises no_template
parse_some (c ∷ t) = returns (c ∷ t)

abbrev pub test_compiler : Library Text Program
test_compiler = record {
  builtins = [];
  preprocess_delimiters = λ t. returns t;
  parse = λ t flags. parse_some t;
  compile = λ compiler ast. returns small_program;
  serialize = λ program. returns (lit "bytes");
  get_size = λ m. length m;
  get_version = λ m. 3;
  get_ts = λ m. pos 100;
  normalize_pointers = λ m. m;
  patch_pointers = λ m. m;
  xxh3 = length;
  version = 3;
  saves = λ cache vm m context. [];
  execute = λ vm m context. raises no_template;
  print_number = λ n. n ∷ [];
}

abbrev some_options : Option Zval
some_options = some (Zval.reference (Zval.array (bucket (name (lit "stringParams")) is_true end)))

read_program-to_zval_example :
    read_program (program_to_zval test_opcodes small_program)
    ≡ some (shown_program test_opcodes small_program)
read_program-to_zval_example = read_program-to_zval test_opcodes small_program

compile-same_program_example :
    (program : Program) × (program_to_zval test_opcodes small_program
      ≡ program_to_zval test_opcodes program)
    × (compile test_compiler test_opcodes true (lit "hi") some_options
        ≡ print_or_convert test_opcodes true program)
    × (vm_compile test_compiler (lit "hi") (deref_options some_options)
        ≡ (serialize_program test_compiler none program >>= λ c. ok (packed test_compiler c)))
unfolding compile
compile-same_program_example =
    compile-same_program test_compiler test_opcodes (lit "hi") some_options
      (program_to_zval test_opcodes small_program) refl

program_to_zval-properties_example :
    program_to_zval test_opcodes leaf
    ≡ object program_class (
        entry (name (lit "opcodes")) (list_of []) (
          entry (name (lit "children")) (list_of []) (
            entry (name (lit "decorators")) Tree.null (
              entry (name (lit "isSimple")) (bool false) (
                entry (name (lit "useDepths")) (bool true) (
                  entry (name (lit "usePartial")) (bool false) (
                    entry (name (lit "useDecorators")) (bool false) (
                      entry (name (lit "blockParams")) (long (pos 0)) (
                        entry
                          (name (lit "stringParams"))
                          (bool false)
                          (entry (name (lit "trackIds")) (bool false) Entries.end))))))))))
program_to_zval-properties_example =
    program_to_zval-properties test_opcodes [] no_programs no_programs (pos 0)
      (record { use_depths = true; use_partial = false; use_decorators = false }) []
