-- ===== src/Vm/Render/Missed.antt =====
-- `render` of src/vm.c where nothing is found in the cache.
use php_handlebars.Base.{◌≡◌, refl, Option, [], Text}
use php_handlebars.Zend.{Zval}
use php_handlebars.Zend.Outcome.{ok}
use php_handlebars.Libhandlebars.{Library}
use php_handlebars.Vm.Render.{
  InputType, World, lookup_cache, not_found, make_module, run_made, run_found, render_with_id,
  cache_id_of, render,
}
use php_handlebars.Vm.Render.Trace.{finish-kept}
use php_handlebars.Vm.Render.Cache.{render-eq-render_with_id}

-- The module is read, compiled or loaded, and nothing is released.
pub render-missed :
    {Ast Program : Type 0} (l : Library Ast Program) (w : World) (type : InputType) (input : Text)
    (z_context z_options : Option Zval) (id : Option Text)
    → cache_id_of type z_options input ≡ ok id
    → lookup_cache l w type input id ≡ not_found
    → render l w type input z_context z_options
      ≡ run_made l w id [] z_context (make_module l w type input z_options)
unfolding render_with_id run_found
render-missed l w type input z_context z_options id named missed =
    rw
      (render-eq-render_with_id l w type input z_context z_options id named, missed, finish-kept id)
      refl
