-- ===== src/Vm/Render/Files/Calls.antt =====
-- What `renderFile` of src/vm.c does with a module in the cache, and without one.
use php_handlebars.Base.{◌≡◌, refl, ap, ◌∙◌, true, false, Option, none, some, List, [], ◌∷◌, Text}
use php_handlebars.Zend.{Zval}
use php_handlebars.Zend.Outcome.{ok}
use php_handlebars.Libhandlebars.{Library}
use php_handlebars.Vm.Compile.{Compiled, compile}
use php_handlebars.Vm.Compile.Stages.{
  retarget, bind-ok, bind-retarget, compile_plain-vm, compile_plain-retarget,
}
use php_handlebars.Vm.Render.{
  CacheEvent, found, released, World, Rendered, input_type_filename, is_stale, greater,
  lookup_cache, not_found, make_module, read_file, run_made, run_found, render_with_id, cache_id_of,
  render, finish,
}
use php_handlebars.Vm.Render.Cache.{IsFreshHit, IsStaleHit, lookup-stale, render-eq-render_with_id}
use php_handlebars.Vm.Render.Missed.{render-missed}
use php_handlebars.Vm.Render.Session.{with_cache}
use php_handlebars.Vm.Render.Session.Saved.{vm_with}
use php_handlebars.Vm.Render.Files.{file_call, made_file, IsOutdated}

pub id-file : (file : Text) → cache_id_of input_type_filename none file ≡ ok (some file)
unfolding cache_id_of
id-file file = refl

abbrev pub stale_events : Text → Text → List CacheEvent
stale_events file bytes = found file bytes ∷ released file (some bytes) ∷ []

-- A stale module is released, and the file is read and compiled.
render-stale :
    {Ast Program : Type 0} (l : Library Ast Program) (w : World) (file bytes : Text)
    (z_context : Option Zval)
    → IsStaleHit l w input_type_filename file file bytes
    → render l w input_type_filename file z_context none
      ≡ finish true (some file) (
          run_made l w
            (some file)
            (stale_events file bytes)
            z_context
            (make_module l w input_type_filename file none))
unfolding render_with_id run_found
render-stale l w file bytes z_context h =
    rw
      (
        render-eq-render_with_id l w input_type_filename file z_context none (some file)
            (id-file file),
        lookup-stale l w input_type_filename file file bytes h,
      )
      refl

-- What a module is that was made of a file: it goes with the new vm.
pub made_file-vm :
    {Ast Program : Type 0} (l : Library Ast Program) (w : World) (file : Text) (c : Compiled)
    → made_file l w file ≡ ok (some c)
    → c.vm ≡ some (vm_with l w none)
unfolding make_module
made_file-vm l w file c h =
    let helpers = w.iterated w.intern.helpers in
    let (tmpl, read, compiled) =
      bind-ok (read_file l (with_cache w none) file)
        (λ tmpl. compile l (some (vm_with l w none)) tmpl (some helpers) none) h in
    compile_plain-vm l (vm_with l w none) tmpl helpers c compiled

module _ {Ast Program : Type 0} (l : Library Ast Program) (w : World) where
  made_file-with_cache :
      (cache : Option (Text → Option Text)) (file : Text)
      → make_module l (with_cache w cache) input_type_filename file none
        ≡ retarget (some (vm_with l w cache)) (made_file l w file)
  unfolding make_module read_file
  made_file-with_cache cache file =
      bind-retarget (read_file l w file) (some (vm_with l w cache)) _ _ λ tmpl.
        compile_plain-retarget l (vm_with l w none) (vm_with l w cache) tmpl
          (w.iterated w.intern.helpers)

  pub lookup-uncached :
      (file : Text)
      → lookup_cache l (with_cache w none) input_type_filename file (some file) ≡ not_found
  unfolding lookup_cache
  lookup-uncached file = refl

  pub lookup-none :
      (c : Text → Option Text) (file : Text)
      → c file ≡ none
      → lookup_cache l (with_cache w (some c)) input_type_filename file (some file) ≡ not_found
  unfolding lookup_cache
  lookup-none c file miss = rw miss refl

  -- Where the file is read and compiled, with what was said to the cache before.
  abbrev pub compiled_run :
      Option (Text → Option Text) → Text → List CacheEvent → Option Zval → Rendered
  compiled_run cache file t z_context =
      run_made l (with_cache w cache) (some file) t z_context
        (retarget (some (vm_with l w cache)) (made_file l w file))

  pub file-missed :
      (cache : Option (Text → Option Text)) (file : Text) (z_context : Option Zval)
      → lookup_cache l (with_cache w cache) input_type_filename file (some file) ≡ not_found
      → file_call l w cache file z_context ≡ compiled_run cache file [] z_context
  file-missed cache file z_context missed =
      render-missed l (with_cache w cache) input_type_filename file z_context none (some file)
        (id-file file) missed
      ∙ ap (run_made l (with_cache w cache) (some file) [] z_context)
          (made_file-with_cache cache file)

  module _ (c : Text → Option Text) (file bytes : Text) (hit : c file ≡ some bytes)
      (on : w.cache_stat ≡ true) where
    stale-IsStaleHit :
        IsOutdated l w file bytes
        → IsStaleHit l (with_cache w (some c)) input_type_filename file file bytes
    unfolding is_stale
    stale-IsStaleHit old = record {
      find_module = c;
      cached = refl;
      hit = hit;
      stale = rw (on, old) refl;
    }

    pub fresh-IsFreshHit :
        greater (w.mtime file) (l.get_ts bytes) ≡ false
        → IsFreshHit l (with_cache w (some c)) input_type_filename file file bytes
    unfolding is_stale
    fresh-IsFreshHit new = record {
      find_module = c;
      cached = refl;
      hit = hit;
      fresh = rw (on, new) refl;
    }

    pub file-stale :
        (z_context : Option Zval)
        → IsOutdated l w file bytes
        → file_call l w (some c) file z_context
          ≡ finish true (some file) (compiled_run (some c) file (stale_events file bytes) z_context)
    file-stale z_context old =
        render-stale l (with_cache w (some c)) file bytes z_context (stale-IsStaleHit old)
        ∙ ap
            (λ m. finish true (some file) (
              run_made l (with_cache w (some c)) (some file) (stale_events file bytes) z_context m))
            (made_file-with_cache (some c) file)
