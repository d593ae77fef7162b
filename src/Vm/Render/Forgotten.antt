-- ===== src/Vm/Render/Forgotten.antt =====
-- What `render` of src/vm.c does with the options when the template's module is in the cache.
use php_handlebars.Base.{◌≡◌, refl, ap, ◌∙◌, Option, none, some, [], ◌∷◌, Text}
use php_handlebars.Zend.{Zval}
use php_handlebars.Zend.Outcome.{ok}
use php_handlebars.Libhandlebars.{Library, Vm, returns}
use php_handlebars.Vm.ProcessOptions.{Processed, process_options}
use php_handlebars.Vm.Compile.{Compiled, compile, new_compiler}
use php_handlebars.Vm.Compile.Stages.{compile-vm}
use php_handlebars.Vm.Render.{
  added, World, input_type_string, is_stale, lookup_cache, make_module, add_event, execute,
  run_saves, run_made, cache_id_of, render, Rendered, new_vm, vm_or_new,
}
use php_handlebars.Vm.Render.Cache.{IsFreshHit, render_fresh_hit}
use php_handlebars.Vm.Render.Missed.{render-missed}
use php_handlebars.Vm.Render.Session.{with_cache}

-- The first call: the module that was compiled is saved and run.
render-saves :
    {Ast Program : Type 0} (l : Library Ast Program) (w : World) (tmpl id : Text)
    (z_context z_options : Option Zval) (c : Compiled) (before : Text → Option Text)
    → cache_id_of input_type_string z_options tmpl ≡ ok (some id)
    → before id ≡ none
    → compile l
        (some (new_vm (with_cache w (some before))))
        tmpl
        (some (w.iterated w.intern.helpers))
        z_options
      ≡ ok (some c)
    → render l (with_cache w (some before)) input_type_string tmpl z_context z_options ≡ record {
      result = execute l w (vm_or_new (with_cache w (some before)) c.vm) c.bytes z_context;
      trace = added id c.bytes ∷ [];
      bytes = some c.bytes;
      saved = run_saves l w (vm_or_new (with_cache w (some before)) c.vm) c.bytes z_context;
    }
unfolding make_module run_made add_event execute run_saves lookup_cache new_vm
render-saves l w tmpl id z_context z_options c before named miss compiled =
    let w' = with_cache w (some before) in
    render-missed l w' input_type_string tmpl z_context z_options (some id) named (rw miss refl)
    ∙ ap (run_made l w' (some id) [] z_context) compiled

-- A call with options whose template is not in the cache, and the same call once more, with what the
-- first one saved: the first is run by the vm that took the options, which has their data and flags, and
-- the second by a new vm, which has none of them, whatever the options are.
pub render-forgets :
    {Ast Program : Type 0} (l : Library Ast Program) (w : World) (tmpl id : Text)
    (z_context z_options : Option Zval) (p : Processed) (c : Compiled)
    (before after : Text → Option Text)
    → cache_id_of input_type_string z_options tmpl ≡ ok (some id)
    → before id ≡ none
    → process_options (new_compiler l) (some (new_vm (with_cache w (some before)))) z_options
      ≡ returns p
    → compile l
        (some (new_vm (with_cache w (some before))))
        tmpl
        (some (w.iterated w.intern.helpers))
        z_options
      ≡ ok (some c)
    → after id ≡ some c.bytes
    → ((render l (with_cache w (some before)) input_type_string tmpl z_context z_options).result
        ≡ execute l w (vm_or_new (with_cache w (some before)) p.vm) c.bytes z_context)
      × ((render l (with_cache w (some before)) input_type_string tmpl z_context z_options).trace
          ≡ added id c.bytes ∷ [])
      × ((render l (with_cache w (some after)) input_type_string tmpl z_context z_options).result
          ≡ execute l w (new_vm (with_cache w (some after))) c.bytes z_context)
unfolding execute is_stale new_vm
render-forgets l w tmpl id z_context z_options p c before after named miss processed compiled hit =
    let first = render-saves l w tmpl id z_context z_options c before named miss compiled in
    let vm =
      compile-vm l (some (new_vm (with_cache w (some before)))) tmpl
        (some (w.iterated w.intern.helpers)) z_options p c processed compiled in
    let fresh : IsFreshHit l (with_cache w (some after)) input_type_string tmpl id c.bytes =
      record { find_module = after; cached = refl; hit = hit; fresh = refl } in
    (
      ap (λ (r : Rendered). r.result) first
          ∙ ap
              (λ (v : Option Vm).
                execute l w (vm_or_new (with_cache w (some before)) v) c.bytes z_context)
              vm,
      ap (λ (r : Rendered). r.trace) first,
      ap (λ (r : Rendered). r.result)
          (render_fresh_hit l (with_cache w (some after)) input_type_string tmpl id c.bytes
            z_context z_options named fresh),
    )
