-- ===== src/Vm/Render/Balance.antt =====
-- That `render` of src/vm.c releases what it finds in the template cache.
use php_handlebars.Base.{
  ◌≡◌, ◌≢◌, refl, ap, ◌∙◌, true, Option, none, some, List, [], ◌∷◌, ◌++◌, Text,
}
use php_handlebars.Zend.{Zval}
use php_handlebars.Zend.Outcome.{Outcome, ok, throw, aborted}
use php_handlebars.Libhandlebars.{Library}
use php_handlebars.Vm.Compile.{Compiled}
use php_handlebars.Vm.Render.{
  InputType, CacheEvent, Rendered, found, added, released, finish, World, make_module, add_event,
  run_made, run_found, render_with_id, cache_id_of, render,
}
use php_handlebars.Vm.Render.Trace.{finish-released, result-finish}
use php_handlebars.Vm.Render.Cache.{IsStaleHit, lookup-stale, render-eq-render_with_id}

-- The variable `module` after `if( !module )`, and what is saved there.
abbrev pub module_of : Outcome (Option Compiled) → Option Text
module_of (ok (some c)) = some c.bytes
module_of _ = none

abbrev pub saved_of : Text → Outcome (Option Compiled) → List CacheEvent
saved_of id (ok (some c)) = added id c.bytes ∷ []
saved_of id _ = []

-- A file whose module in the cache is stale: if the call comes to its end, that module was found and
-- released, what was made from the file was saved, if anything was, and then what was made, or NULL
-- where nothing was, is released to the cache as well.
pub render_stale_releases_twice :
    {Ast Program : Type 0} (l : Library Ast Program) (w : World) (type : InputType)
    (input id bytes : Text) (z_context z_options : Option Zval)
    → cache_id_of type z_options input ≡ ok (some id)
    → IsStaleHit l w type input id bytes
    → (render l w type input z_context z_options).result ≢ aborted
    → (render l w type input z_context z_options).trace
      ≡ found id bytes
        ∷ released id (some bytes)
        ∷ (saved_of id (make_module l w type input z_options)
            ++ released id (module_of (make_module l w type input z_options)) ∷ [])
unfolding render_with_id run_found run_made add_event
render_stale_releases_twice l w type input id bytes z_context z_options named h =
    rw
      (
        render-eq-render_with_id l w type input z_context z_options (some id) named,
        lookup-stale l w type input id bytes h,
      )
      (ended (make_module l w type input z_options))
  where
    events : List CacheEvent
    events = found id bytes ∷ released id (some bytes) ∷ []

    made :
        (o : Outcome (Option Compiled))
        → (run_made l w (some id) events z_context o).trace
            ++ released id (run_made l w (some id) events z_context o).bytes ∷ []
          ≡ events ++ (saved_of id o ++ released id (module_of o) ∷ [])
    made (ok none) = refl
    made (ok (some c)) = rw h.cached refl
    made (throw e) = refl
    made aborted = refl

    ended :
        (o : Outcome (Option Compiled))
        → (finish true (some id) (run_made l w (some id) events z_context o)).result ≢ aborted
        → (finish true (some id) (run_made l w (some id) events z_context o)).trace
          ≡ events ++ (saved_of id o ++ released id (module_of o) ∷ [])
    ended o r =
        let same = result-finish true (some id) (run_made l w (some id) events z_context o) in
        ap (λ (r : Rendered). r.trace)
          (finish-released id (run_made l w (some id) events z_context o) (λ e. r (same ∙ e)))
        ∙ made o
