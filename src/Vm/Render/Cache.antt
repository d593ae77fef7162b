-- ===== src/Vm/Render/Cache.antt =====
-- How `render` of src/vm.c uses the template cache.
use php_handlebars.Base.{◌≡◌, ◌≢◌, true, false, Option, none, some, [], ◌∷◌, Text, arith}
use php_handlebars.Zend.{Zval}
use php_handlebars.Zend.Outcome.{ok, aborted}
use php_handlebars.Libhandlebars.{Library, Vm}
use php_handlebars.Vm.Render.{
  InputType, found, released, World, is_stale, lookup_cache, run_found, render_with_id, cache_id_of,
  render, execute, run_saves, new_vm,
}
use php_handlebars.Vm.Render.Trace.{finish-released}

module _ {Ast Program : Type 0} (l : Library Ast Program) (w : World) where
  -- The cache has a module for the id, and it is not stale.
  pub record IsFreshHit (type : InputType) (input id bytes : Text) : Type 0 where
    pub find_module : Text → Option Text
    pub cached : w.cache_find ≡ some find_module
    pub hit : find_module id ≡ some bytes
    pub fresh : is_stale l w type input bytes ≡ false

  pub record IsStaleHit (type : InputType) (input id bytes : Text) : Type 0 where
    pub find_module : Text → Option Text
    pub cached : w.cache_find ≡ some find_module
    pub hit : find_module id ≡ some bytes
    pub stale : is_stale l w type input bytes ≡ true

  lookup-fresh :
      (type : InputType) (input id bytes : Text)
      → IsFreshHit type input id bytes
      → lookup_cache l w type input (some id)
        ≡ record { bytes = some bytes; from_cache = true; trace = found id bytes ∷ [] }
  unfolding lookup_cache
  lookup-fresh type input id bytes h = rw (h.cached, h.hit, h.fresh)

  pub lookup-stale :
      (type : InputType) (input id bytes : Text)
      → IsStaleHit type input id bytes
      → lookup_cache l w type input (some id) ≡ record {
        bytes = none;
        from_cache = true;
        trace = found id bytes ∷ released id (some bytes) ∷ [];
      }
  unfolding lookup_cache
  lookup-stale type input id bytes h = rw (h.cached, h.hit, h.stale)

  execute-ne-aborted :
      (vm : Vm) (bytes : Text) (z_context : Option Zval) → execute l w vm bytes z_context ≢ aborted
  unfolding execute
  execute-ne-aborted vm bytes z_context = ground arith

  pub render-eq-render_with_id :
      (type : InputType) (input : Text) (z_context z_options : Option Zval) (id : Option Text)
      → cache_id_of type z_options input ≡ ok id
      → render l w type input z_context z_options
        ≡ render_with_id l w type input z_context z_options id
  unfolding render
  render-eq-render_with_id type input z_context z_options id named = rw (named, render)

  -- With a fresh module in the cache, `render` runs that module in a new vm and releases it once, whether
  -- the run succeeds or throws. Neither the template nor any option but the cache id is looked at.
  pub render_fresh_hit :
      (type : InputType) (input id bytes : Text) (z_context z_options : Option Zval)
      → cache_id_of type z_options input ≡ ok (some id)
      → IsFreshHit type input id bytes
      → render l w type input z_context z_options ≡ record {
        result = execute l w (new_vm w) bytes z_context;
        trace = found id bytes ∷ released id (some bytes) ∷ [];
        bytes = some bytes;
        saved = run_saves l w (new_vm w) bytes z_context;
      }
  unfolding render_with_id run_found
  render_fresh_hit type input id bytes z_context z_options named h =
      rw
        (
          render-eq-render_with_id type input z_context z_options (some id) named,
          lookup-fresh type input id bytes h,
        )
        (finish-released id
          (record {
            result = execute l w (new_vm w) bytes z_context;
            trace = found id bytes ∷ [];
            bytes = some bytes;
            saved = run_saves l w (new_vm w) bytes z_context;
          })
          (execute-ne-aborted (new_vm w) bytes z_context))
