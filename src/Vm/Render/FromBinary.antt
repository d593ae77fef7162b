-- ===== src/Vm/Render/FromBinary.antt =====
-- `renderFromBinaryString` of what `compile` returned, both of src/vm.c.
use php_handlebars.Base.{◌≡◌, refl, sym, ◌∙◌, Option, none, some, [], Text, arith}
use php_handlebars.Zend.{Zval, array}
use php_handlebars.Zend.Outcome.{Outcome, ok, throw, aborted}
use php_handlebars.Libhandlebars.{Library, Compiler, returns, php_handlebars_try}
use php_handlebars.Vm.ProcessOptions.{Processed, process_options, set_compiler}
use php_handlebars.Vm.Binary.{pack_module}
use php_handlebars.Vm.Binary.Accepted.{IsFresh, verify-pack_module}
use php_handlebars.Vm.Compile.{
  Compiled, add_helpers, compile_template, compile, new_compiler, vm_compile,
}
use php_handlebars.Vm.Compile.Stages.{compile_template-Succeeds}
use php_handlebars.Vm.Render.{
  World, input_type_binary, make_module, run_made, run_found, render_with_id, cache_id_of, render,
  execute, run_saves, new_vm,
}
use php_handlebars.Vm.Render.Trace.{finish-kept}
use php_handlebars.Vm.Render.Cache.{render-eq-render_with_id}

module _ {Ast Program : Type 0} (l : Library Ast Program) where
  -- Rendering a binary string without options makes no call on the cache outside the vm.
  render_packed :
      (w : World) (bytes : Text) (z_context : Option Zval)
      → IsFresh l bytes
      → render l w input_type_binary (pack_module l bytes) z_context none ≡ record {
        result = execute l w (new_vm w) (l.patch_pointers (l.normalize_pointers bytes)) z_context;
        trace = [];
        bytes = some (l.patch_pointers (l.normalize_pointers bytes));
        saved = run_saves l w (new_vm w) (l.patch_pointers (l.normalize_pointers bytes)) z_context;
      }
  unfolding render_with_id run_found run_made make_module
  render_packed w bytes z_context fresh =
      let id : cache_id_of input_type_binary none (pack_module l bytes) ≡ ok none =
        unfold cache_id_of in refl in
      rw (
        render-eq-render_with_id l w input_type_binary (pack_module l bytes) z_context none none id,
        verify-pack_module l bytes fresh,
        finish-kept,
      )

  pub process_options-no_vm :
      (compiler : Compiler) (z_options : Option Zval)
      → (p : Processed) × (process_options compiler none z_options ≡ returns p)
        × (p.compiler ≡ set_compiler compiler z_options)
        × (p.vm ≡ none)
  unfolding process_options
  process_options-no_vm compiler none = (_, refl, refl, refl)
  process_options-no_vm compiler (some (array ht)) = (_, refl, refl, refl)
  process_options-no_vm compiler (some _) = (_, refl, refl, refl)

  pub compile-no_vm :
      (tmpl : Text) (z_options : Option Zval)
      → compile l none tmpl none z_options
        ≡ compile_template l (set_compiler (new_compiler l) z_options) none tmpl
  unfolding compile
  compile-no_vm tmpl z_options =
      let (p, processed, same, no_vm) = process_options-no_vm (new_compiler l) z_options in
      rw (processed, php_handlebars_try, no_vm, same, add_helpers)

  -- What the library promises of every module that it serializes.
  abbrev pub SerializesFresh : Type 0
  SerializesFresh =
      (program : Program) (bytes : Text) → l.serialize program ≡ returns bytes → IsFresh l bytes

  compiled-IsFresh :
      (tmpl : Text) (z_options : Option Zval) (c : Compiled)
      → SerializesFresh
      → compile l none tmpl none z_options ≡ ok (some c)
      → IsFresh l c.bytes
  compiled-IsFresh tmpl z_options c fresh h =
      let done =
        compile_template-Succeeds l (set_compiler (new_compiler l) z_options) none tmpl c
          (sym (compile-no_vm tmpl z_options) ∙ h) in
      fresh done.0.program c.bytes done.0.serialized

  -- Whatever `compile` returns for a template, if the library's serialized modules are as it promises:
  -- rendering it without options runs that module, its pointers normalized and patched, in a
  -- new vm, and itself makes no call on the cache; only the vm may add to it.
  pub render-vm_compile :
      (w : World) (tmpl binary : Text) (z_options z_context : Option Zval)
      → SerializesFresh
      → vm_compile l tmpl z_options ≡ ok (some binary)
      → (c : Compiled) × (compile l none tmpl none z_options ≡ ok (some c))
        × (render l w input_type_binary binary z_context none ≡ record {
          result =
              execute l w (new_vm w) (l.patch_pointers (l.normalize_pointers c.bytes)) z_context;
          trace = [];
          bytes = some (l.patch_pointers (l.normalize_pointers c.bytes));
          saved =
              run_saves l w (new_vm w) (l.patch_pointers (l.normalize_pointers c.bytes)) z_context;
        })
  unfolding vm_compile
  render-vm_compile w tmpl binary z_options z_context fresh h =
      compiled (compile l none tmpl none z_options) refl
    where
      compiled :
          (o : Outcome (Option Compiled))
          → compile l none tmpl none z_options ≡ o
          → (c : Compiled) × (compile l none tmpl none z_options ≡ ok (some c))
            × (render l w input_type_binary binary z_context none ≡ record {
              result =
                  execute l w
                    (new_vm w)
                    (l.patch_pointers (l.normalize_pointers c.bytes))
                    z_context;
              trace = [];
              bytes = some (l.patch_pointers (l.normalize_pointers c.bytes));
              saved =
                  run_saves l w
                    (new_vm w)
                    (l.patch_pointers (l.normalize_pointers c.bytes))
                    z_context;
            })
      compiled (ok none) e = ground arith
      compiled (ok (some c)) e =
          let made : pack_module l c.bytes ≡ binary = ground arith in
          (
            c,
            e,
            rw (← made)
                (render_packed w c.bytes z_context (compiled-IsFresh tmpl z_options c fresh e)),
          )
      compiled (throw x) e = ground arith
      compiled aborted e = ground arith
