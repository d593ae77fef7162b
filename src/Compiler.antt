-- ===== src/Compiler.antt =====
-- src/compiler.c, src/opcode.c and src/program.c: the classes `Handlebars\Compiler`,
-- `Handlebars\Opcode` and `Handlebars\Program`. Here are libhandlebars's programs, as far as the
-- extension reads them; the modules below convert them and run the compiler.
pub mod ToZval
pub mod Method
use php_handlebars.Base.{ℕ, Bool, List, Text}
use php_handlebars.Zend.{ℤ}
use php_handlebars.Libhandlebars.{Flags, LibResult}

-- `struct handlebars_operand`, with the types that the enumeration of libhandlebars has.
pub data Operand : Type 0 where
  null : Operand
  boolean : Bool → Operand
  long : ℤ → Operand
  string : Text → Operand
  array : List Text → Operand

-- `struct handlebars_opcode`; the type is the number of the enumeration.
pub record Opcode : Type 0 where
  pub type_number : ℕ
  pub op1 : Operand
  pub op2 : Operand
  pub op3 : Operand
  pub op4 : Operand

-- `program->result_flags`, as far as they are read
pub record ResultFlags : Type 0 where
  pub use_depths : Bool
  pub use_partial : Bool
  pub use_decorators : Bool

-- `struct handlebars_program`: its opcodes, children and decorators, the number of its block
-- parameters, and its flags.
mutual
  pub data Program : Type 0 where
    handlebars_program : List Opcode → Programs → Programs → ℤ → ResultFlags → Flags → Program

  pub data Programs : Type 0 where
    no_programs : Programs
    child : Program → Programs → Programs

-- What libhandlebars says of opcodes, and its printer of programs.
pub record Opcodes : Type 0 where
  -- `handlebars_opcode_readable_type` and `handlebars_opcode_num_operands`
  pub readable_type : ℕ → Text
  pub num_operands : ℕ → ℕ
  -- `handlebars_opcode_type_invoke_ambiguous`
  pub invoke_ambiguous : ℕ
  pub print : Program → LibResult Text
