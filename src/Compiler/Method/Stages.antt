-- ===== src/Compiler/Method/Stages.antt =====
-- The compiler's method beside `Handlebars\VM::compile` of src/vm.c.
use php_handlebars.Base.{ap, ◌≡◌, refl, ◌∙◌, Bool, true, false, Option, none, some, Text, arith}
use php_handlebars.Zend.{Zval, array}
use php_handlebars.Zend.Outcome.{
  Outcome, ok, throw, Exception, ExceptionClass, compile_exception, runtime_exception, ◌>>=◌,
}
use php_handlebars.Zend.Tree.{Tree}
use php_handlebars.Libhandlebars.{LibResult, returns, raises, Compiler, Library, php_handlebars_try}
use php_handlebars.Vm.ProcessOptions.{process_options, set_compiler}
use php_handlebars.Vm.Compile.{
  new_compiler, preprocess, serialize_program, packed, vm_compile, Compiled,
}
use php_handlebars.Vm.Compile
use php_handlebars.Vm.Compile.Stages.{try-some}
use php_handlebars.Vm.Render.FromBinary.{compile-no_vm}
use php_handlebars.Compiler.{Program, Opcodes}
use php_handlebars.Compiler.ToZval.{program_to_zval}
use php_handlebars.Compiler.Method.{
  deref_options, print_or_convert, compile_ast, compile_source, compile_template, compile,
}

process_options-flags :
    (compiler : Compiler) (options : Option Zval)
    → process_options compiler none options
      ≡ returns (record {
        compiler = set_compiler compiler options;
        vm = none;
        flags = (set_compiler compiler options).flags;
      })
unfolding process_options
process_options-flags compiler none = refl
process_options-flags compiler (some (array ht)) = refl
process_options-flags compiler (some _) = refl

-- A failure with the same message and code, of the class of compile exceptions here and of any class
-- there.
abbrev pub FailsAs {ℓ} : {A : Type ℓ} → Exception → Outcome A → Type ℓ
FailsAs x y =
    (x.class_entry ≡ compile_exception)
    × ((ce : ExceptionClass) × (y ≡ throw (record x { class_entry = ce })))

try-returns {ℓ κ} :
    {A : Type ℓ} {B : Type κ} (ce : ExceptionClass) {r : LibResult A} {a : A}
    (k : A → Outcome (Option B))
    → r ≡ returns a
    → php_handlebars_try ce r k ≡ k a
unfolding php_handlebars_try
try-returns ce k e = ap (λ r. php_handlebars_try ce r k) e

module _ {ℓ κ μ} {A : Type ℓ} {B : Type κ} {C : Type μ} where
  try-FailsAs :
      (ce : ExceptionClass) (r : LibResult A) (k : A → Outcome (Option B))
      (k' : A → Outcome (Option C)) (x : Exception)
      → ((a : A) → k a ≡ throw x → FailsAs x (k' a))
      → php_handlebars_try compile_exception r k ≡ throw x
      → FailsAs x (php_handlebars_try ce r k')
  unfolding php_handlebars_try
  try-FailsAs ce (returns a) k k' x later h = later a h
  try-FailsAs ce (raises e) k k' x later h = (ground arith, (ce, ground arith))

module _ {Ast : Type 0} (l : Library Ast Program) (o : Opcodes) where
  -- The compiler with its options.
  abbrev set_up : Option Zval → Compiler
  set_up options = set_compiler (new_compiler l) (deref_options options)

  compile-set_up :
      (print : Bool) (tmpl : Text) (options : Option Zval)
      → compile l o print tmpl options
        ≡ compile_template l o print (set_up options) (set_up options).flags tmpl
  unfolding compile
  compile-set_up print tmpl options =
      rw (process_options-flags (new_compiler l) (deref_options options), php_handlebars_try) refl

  same_program :
      (compiler : Compiler) (tmpl : Text) (t : Tree)
      → compile_template l o false compiler compiler.flags tmpl ≡ ok (some t)
      → (program : Program) × (t ≡ program_to_zval o program)
        × (Compile.compile_template l compiler none tmpl ≡ serialize_program l none program)
        × (compile_template l o true compiler compiler.flags tmpl ≡ print_or_convert o true program)
  unfolding compile_template print_or_convert Compile.compile_template serialize_program
  same_program compiler tmpl t h =
      let (source, preprocessed, h1) =
        try-some compile_exception (preprocess l compiler.flags tmpl)
          (compile_source l o false compiler compiler.flags) h in
      let (ast, parsed, h2) =
        try-some compile_exception (l.parse source compiler.flags) (compile_ast l o false compiler)
          h1 in
      let (program, compiled, h3) =
        try-some compile_exception (l.compile compiler ast) (print_or_convert o false) h2 in
      (
        program,
        ground arith,
        try-returns runtime_exception _ preprocessed
            ∙ try-returns compile_exception _ parsed
            ∙ try-returns compile_exception _ compiled,
        ground arith,
      )

  same_failure :
      (compiler : Compiler) (tmpl : Text) (x : Exception)
      → compile_template l o false compiler compiler.flags tmpl ≡ throw x
      → FailsAs x (Compile.compile_template l compiler none tmpl)
  unfolding compile_template print_or_convert Compile.compile_template
  same_failure compiler tmpl x =
      try-FailsAs runtime_exception (preprocess l compiler.flags tmpl) _ _ x λ source.
        try-FailsAs compile_exception (l.parse source compiler.flags) _ _ x λ ast.
          try-FailsAs compile_exception (l.compile compiler ast) _ _ x λ program h. ground arith

  -- If `compile` returns a value, it is the converted program of the one program that `compilePrint`
  -- prints and that `VM::compile`, with the dereferenced options, serializes and packs.
  pub compile-same_program :
      (tmpl : Text) (options : Option Zval) (t : Tree)
      → compile l o false tmpl options ≡ ok (some t)
      → (program : Program) × (t ≡ program_to_zval o program)
        × (compile l o true tmpl options ≡ print_or_convert o true program)
        × (vm_compile l tmpl (deref_options options)
            ≡ (serialize_program l none program >>= λ c. ok (packed l c)))
  unfolding vm_compile
  compile-same_program tmpl options t h =
      let (program, converted, serialized, printed) =
        same_program (set_up options) tmpl t (ground (arith, compile-set_up false tmpl options)) in
      (
        program,
        converted,
        compile-set_up true tmpl options ∙ printed,
        rw (compile-no_vm l tmpl (deref_options options)) (rw serialized refl),
      )

  -- If `compile` throws, then a compile exception, and `VM::compile` with the dereferenced options
  -- throws an exception with the same message and code.
  pub compile-throw :
      (tmpl : Text) (options : Option Zval) (x : Exception)
      → compile l o false tmpl options ≡ throw x
      → FailsAs x (vm_compile l tmpl (deref_options options))
  unfolding vm_compile
  compile-throw tmpl options x h =
      let (class_entry, (ce, thrown)) =
        same_failure (set_up options) tmpl x (ground (arith, compile-set_up false tmpl options)) in
      (class_entry, (ce, rw (compile-no_vm l tmpl (deref_options options)) (rw thrown refl)))
