-- ===== src/Vm/Compile/Stages.antt =====
-- How the stages of `compile` in src/vm.c succeed and fail.
use php_handlebars.Base.{
  ◌≡◌, refl, ap, ◌∙◌, ◌⊎◌, inl, inr, Option, none, some, List, [], Text, arith,
}
use php_handlebars.Zend.{Zval}
use php_handlebars.Zend.Outcome.{
  Outcome, ok, throw, aborted, ◌>>=◌, Exception, ExceptionClass, runtime_exception,
  compile_exception,
}
use php_handlebars.Libhandlebars.{
  LibError, LibResult, returns, raises, Compiler, Vm, Library, php_handlebars_try,
  php_handlebars_throw,
}
use php_handlebars.Vm.KnownHelpers.{fetch_known_helpers}
use php_handlebars.Vm.ProcessOptions.{Processed, process_options, set_compiler}
use php_handlebars.Vm.Compile.{
  Compiled, preprocess, serialize_program, compile_ast, compile_source, compile_template, compile,
  new_compiler, add_helpers,
}

module _ {Ast Program : Type 0} (l : Library Ast Program) where
  -- The library's answers at each stage, up to the module.
  pub record Succeeds (compiler : Compiler) (tmpl bytes : Text) : Type 0 where
    pub source : Text
    pub ast : Ast
    pub program : Program
    pub preprocessed : preprocess l compiler.flags tmpl ≡ returns source
    pub parsed : l.parse source compiler.flags ≡ returns ast
    pub compiled : l.compile compiler ast ≡ returns program
    pub serialized : l.serialize program ≡ returns bytes

module _ {ℓ κ} {A : Type ℓ} {B : Type κ} where
  pub try-some :
      (ce : ExceptionClass) (r : LibResult A) (k : A → Outcome (Option B)) {b : B}
      → php_handlebars_try ce r k ≡ ok (some b)
      → (a : A) × (r ≡ returns a) × (k a ≡ ok (some b))
  unfolding php_handlebars_try
  try-some ce (returns a) k h = (a, refl, h)
  try-some ce (raises e) k h = ground arith

  pub try-throw :
      (ce : ExceptionClass) (r : LibResult A) (k : A → Outcome (Option B)) {x : Exception}
      → php_handlebars_try ce r k ≡ throw x
      → ((e : LibError) × (r ≡ raises e) × (x.class_entry ≡ ce))
        ⊎ ((a : A) × (r ≡ returns a) × (k a ≡ throw x))
  unfolding php_handlebars_try
  try-throw ce (returns a) k h = inr (a, refl, h)
  try-throw ce (raises e) k h = inl (e, refl, ground arith)

module _ {Ast Program : Type 0} (l : Library Ast Program) where
  -- `compile` returns a module only if the library answered at every stage, each with what the stage
  -- before gave, and then the module is what was serialized.
  pub compile_template-Succeeds :
      (compiler : Compiler) (vm : Option Vm) (tmpl : Text) (c : Compiled)
      → compile_template l compiler vm tmpl ≡ ok (some c)
      → Succeeds l compiler tmpl c.bytes × (c.vm ≡ vm)
  unfolding compile_template serialize_program
  compile_template-Succeeds compiler vm tmpl c h =
      let (source, preprocessed, h1) =
        try-some runtime_exception (preprocess l compiler.flags tmpl) (compile_source l compiler vm)
          h in
      let (ast, parsed, h2) =
        try-some compile_exception (l.parse source compiler.flags) (compile_ast l compiler vm) h1 in
      let (program, compiled, h3) =
        try-some compile_exception (l.compile compiler ast) (serialize_program l vm) h2 in
      let (bytes, serialized, h4) = try-some compile_exception (l.serialize program) _ h3 in
      (
        record {
          source = source;
          ast = ast;
          program = program;
          preprocessed = preprocessed;
          parsed = parsed;
          compiled = compiled;
          serialized = ground arith;
        },
        ground arith,
      )

  serialize_program-throw :
      (vm : Option Vm) (program : Program) (x : Exception)
      → serialize_program l vm program ≡ throw x
      → x.class_entry ≡ compile_exception
  unfolding serialize_program
  serialize_program-throw vm program x h =
      elim (try-throw compile_exception (l.serialize program) _ h) [
        | inl (e, raised, class_entry) ↦ class_entry
        | inr (bytes, returned, k) ↦ cc
      ]

  compile_ast-throw :
      (compiler : Compiler) (vm : Option Vm) (ast : Ast) (x : Exception)
      → compile_ast l compiler vm ast ≡ throw x
      → x.class_entry ≡ compile_exception
  unfolding compile_ast
  compile_ast-throw compiler vm ast x h =
      elim (try-throw compile_exception (l.compile compiler ast) (serialize_program l vm) h) [
        | inl (e, raised, class_entry) ↦ class_entry
        | inr (program, returned, k) ↦ serialize_program-throw vm program x k
      ]

  compile_source-throw :
      (compiler : Compiler) (vm : Option Vm) (source : Text) (x : Exception)
      → compile_source l compiler vm source ≡ throw x
      → x.class_entry ≡ compile_exception
  unfolding compile_source
  compile_source-throw compiler vm source x h =
      elim (try-throw compile_exception (l.parse source compiler.flags) (compile_ast l compiler vm)
        h) [
          | inl (e, raised, class_entry) ↦ class_entry
          | inr (ast, returned, k) ↦ compile_ast-throw compiler vm ast x k
        ]

  -- A failure of the preprocessing of delimiters is a runtime exception, and every later one is a
  -- compile exception.
  pub compile_template-throw :
      (compiler : Compiler) (vm : Option Vm) (tmpl : Text) (x : Exception)
      → compile_template l compiler vm tmpl ≡ throw x
      → ((e : LibError) × (preprocess l compiler.flags tmpl ≡ raises e)
          × (x.class_entry ≡ runtime_exception))
        ⊎ ((source : Text) × (preprocess l compiler.flags tmpl ≡ returns source)
            × (x.class_entry ≡ compile_exception))
  unfolding compile_template
  compile_template-throw compiler vm tmpl x h =
      elim (try-throw runtime_exception (preprocess l compiler.flags tmpl)
        (compile_source l compiler vm) h) [
          | inl raised ↦ inl raised
          | inr (source, preprocessed, k) ↦
              inr (source, preprocessed, compile_source-throw compiler vm source x k)
        ]

pub bind-ok {ℓ κ} :
    {A : Type ℓ} {B : Type κ} (m : Outcome A) (f : A → Outcome B) {b : B}
    → (m >>= f) ≡ ok b
    → (a : A) × (m ≡ ok a) × (f a ≡ ok b)
bind-ok (ok a) f h = (a, refl, h)
bind-ok (throw e) f h = cc
bind-ok aborted f h = cc

-- The vm that goes with a module is the one that took the options.
pub compile-vm :
    {Ast Program : Type 0} (l : Library Ast Program) (vm : Option Vm) (tmpl : Text)
    (helpers : Option (List (Option Text) × List (Option Text))) (z_options : Option Zval)
    (p : Processed) (c : Compiled)
    → process_options (new_compiler l) vm z_options ≡ returns p
    → compile l vm tmpl helpers z_options ≡ ok (some c)
    → c.vm ≡ p.vm
unfolding compile
compile-vm l vm tmpl helpers z_options p c processed h =
    let (q, same, rest) =
      try-some runtime_exception (process_options (new_compiler l) vm z_options) _ h in
    let (compiler, made, compiled) =
      bind-ok (add_helpers q.vm helpers q.compiler)
        (λ compiler. compile_template l compiler q.vm tmpl) rest in
    let kept = (compile_template-Succeeds l compiler q.vm tmpl c compiled).1 in
    let processed_once : q ≡ p = cc in kept ∙ ap (λ (p : Processed). p.vm) processed_once

-- Without options the vm stays as it was.
pub compile_plain-vm :
    {Ast Program : Type 0} (l : Library Ast Program) (vm : Vm) (tmpl : Text)
    (helpers : List (Option Text) × List (Option Text)) (c : Compiled)
    → compile l (some vm) tmpl (some helpers) none ≡ ok (some c)
    → c.vm ≡ some vm
unfolding process_options
compile_plain-vm l vm tmpl helpers c h =
    let unprocessed : Processed = record {
      compiler = set_compiler (new_compiler l) none;
      vm = some vm;
      flags = [];
    } in
    compile-vm l (some vm) tmpl (some helpers) none unprocessed c refl h

-- What is compiled does not depend on the vm that goes with it.
abbrev pub retarget : Option Vm → Outcome (Option Compiled) → Outcome (Option Compiled)
retarget vm (ok (some c)) = ok (some (record { bytes = c.bytes; vm = vm }))
retarget vm (ok none) = ok none
retarget vm (throw x) = throw x
retarget vm aborted = aborted

try-retarget {ℓ} :
    {A : Type ℓ} (ce : ExceptionClass) (r : LibResult A) (vm : Option Vm)
    (k k' : A → Outcome (Option Compiled))
    → ((a : A) → k' a ≡ retarget vm (k a))
    → php_handlebars_try ce r k' ≡ retarget vm (php_handlebars_try ce r k)
unfolding php_handlebars_try php_handlebars_throw
try-retarget ce (returns a) vm k k' h = h a
try-retarget ce (raises e) vm k k' h = ground arith

pub bind-retarget {ℓ} :
    {A : Type ℓ} (m : Outcome A) (vm : Option Vm) (k k' : A → Outcome (Option Compiled))
    → ((a : A) → k' a ≡ retarget vm (k a))
    → (m >>= k') ≡ retarget vm (m >>= k)
bind-retarget (ok a) vm k k' h = h a
bind-retarget (throw x) vm k k' h = refl
bind-retarget aborted vm k k' h = refl

module _ {Ast Program : Type 0} (l : Library Ast Program) where
  compile_template-retarget :
      (compiler : Compiler) (vm vm' : Option Vm) (tmpl : Text)
      → compile_template l compiler vm' tmpl ≡ retarget vm' (compile_template l compiler vm tmpl)
  unfolding compile_template serialize_program
  compile_template-retarget compiler vm vm' tmpl =
      try-retarget runtime_exception (preprocess l compiler.flags tmpl) vm' _ _ λ source.
        try-retarget compile_exception (l.parse source compiler.flags) vm' _ _ λ ast.
          try-retarget compile_exception (l.compile compiler ast) vm' _ _
            λ program. try-retarget compile_exception (l.serialize program) vm' _ _ λ bytes. refl

  pub compile_plain-retarget :
      (vm vm' : Vm) (tmpl : Text) (helpers : List (Option Text) × List (Option Text))
      → compile l (some vm') tmpl (some helpers) none
        ≡ retarget (some vm') (compile l (some vm) tmpl (some helpers) none)
  unfolding compile process_options add_helpers
  compile_plain-retarget vm vm' tmpl (counted, copied) =
      bind-retarget
        (fetch_known_helpers (new_compiler l).known_helpers counted copied >>= λ a.
          ok (record (set_compiler (new_compiler l) none) { known_helpers = some a.strings }))
        (some vm') _ _ λ compiler. compile_template-retarget compiler (some vm) (some vm') tmpl
