-- ===== src/Vm/Render/Configured.antt =====
-- `render` of src/vm.c in a module that was started by src/php_handlebars.c: the cache that it asks is
-- the one of the module's globals.
use php_handlebars.Base.{
  ℕ, suc, ◌≡◌, refl, ap, ◌∙◌, true, false, Option, none, some, [], Text, lit, text_eq, arith,
}
use php_handlebars.Zend.{Zval}
use php_handlebars.Zend.Outcome.{Outcome, ok, throw, aborted}
use php_handlebars.Libhandlebars.{Library}
use php_handlebars.Module.{Globals, Backends, Setup, ginit, rounds, minit, disable_cli, setup_cache}
use php_handlebars.Module.Ini.{setting, register_ini_entries, register_ini_entries-fields}
use php_handlebars.Module.Startup.{Environment, Started, setup, module_start}
use php_handlebars.Module.Startup.Ends.{constant, is_null, started-setup, module_start-setup}
use php_handlebars.Vm.Compile.{Compiled}
use php_handlebars.Vm.Render.{
  InputType, World, lookup_cache, not_found, make_module, add_event, run_made, run_found,
  render_with_id, cache_id_of, render,
}
use php_handlebars.Vm.Render.Missed.{render-missed}

-- `HANDLEBARS_G(cache)` and `HANDLEBARS_G(cache_stat)` as `render` reads them.
abbrev pub find_in {ℓ} :
    {Cache : Type ℓ} → (Cache → Text → Option Text) → Option Cache → Option (Text → Option Text)
find_in find none = none
find_in find (some cache) = some (find cache)

unfoldable pub world_of :
    {Cache : Type 0} → (Cache → Text → Option Text) → Globals Cache → World → World
world_of find g w = record w { cache_find = find_in find g.cache; cache_stat = g.cache_stat }

module _ {Ast Program : Type 0} (l : Library Ast Program) (w : World) where
  run_made-silent :
      (id : Option Text) (z_context : Option Zval) (o : Outcome (Option Compiled))
      → w.cache_find ≡ none
      → (run_made l w id [] z_context o).trace ≡ []
  unfolding run_made add_event
  run_made-silent id z_context (ok none) off = refl
  run_made-silent none z_context (ok (some c)) off = refl
  run_made-silent (some id) z_context (ok (some c)) off = ground arith
  run_made-silent id z_context (throw e) off = refl
  run_made-silent id z_context aborted off = refl

  lookup_cache-silent :
      (type : InputType) (input : Text) (id : Option Text)
      → w.cache_find ≡ none
      → lookup_cache l w type input id ≡ not_found
  unfolding lookup_cache
  lookup_cache-silent type input none off = refl
  lookup_cache-silent type input (some id) off = ground arith

  -- Without a cache nothing is said to it.
  pub render-silent :
      (type : InputType) (input : Text) (z_context z_options : Option Zval)
      → w.cache_find ≡ none
      → (render l w type input z_context z_options).trace ≡ []
  unfolding render_with_id run_found
  render-silent type input z_context z_options off = silent (cache_id_of type z_options input) refl
    where
      silent :
          (o : Outcome (Option Text))
          → cache_id_of type z_options input ≡ o
          → (render l w type input z_context z_options).trace ≡ []
      silent (ok id) named =
          let made = make_module l w type input z_options in
          rw
            (render-missed l w type input z_context z_options id named
              (lookup_cache-silent type input id off))
            (run_made-silent id z_context made off)
      silent (throw e) named = unfold render in rw (named, render)
      silent aborted named = unfold render in rw (named, render)

-- The setup of the cache on the command line, if the cache is not enabled for it.
minit-cli :
    {Cache : Type 0} (b : Backends Cache) (n : ℕ) (g : Globals Cache)
    → g.cache_enable_cli ≡ false
    → minit (suc n) true b g
      ≡ some (record { globals = record g { cache_enable = false }; backend = none })
unfolding minit disable_cli rounds setup_cache
minit-cli b n g off = rw off refl

-- A module that was started on the command line, where the configuration does not enable the cache
-- for it, whatever back end it names: the start succeeds, the constant `CACHE_BACKEND` is null, and no
-- `render` afterwards, whatever else it meets, makes a call on a cache.
pub render-cli :
    {Cache Ast Program : Type 0} (e : Environment Cache) (n : ℕ) (find : Cache → Text → Option Text)
    (l : Library Ast Program) (w : World) (type : InputType) (input : Text)
    (z_context z_options : Option Zval)
    → text_eq e.sapi_name (lit "cli") ≡ true
    → e.configuration.to_bool
        (setting e.configuration (lit "handlebars.cache.enable_cli") (lit "0"))
      ≡ false
    → (r : Started Cache) × (module_start (suc n) e ≡ some (ok r))
      × (is_null (constant (lit "Handlebars\\CACHE_BACKEND") r.constants) ≡ true)
      × ((render l (world_of find r.globals w) type input z_context z_options).trace ≡ [])
unfolding setup world_of
render-cli {Cache} e n find l w type input z_context z_options cli off =
    let g = register_ini_entries e.configuration (ginit {Cache = Cache}) in
    let s : Setup Cache = record { globals = record g { cache_enable = false }; backend = none } in
    let fields = register_ini_entries-fields e.configuration (ginit {Cache = Cache}) in
    let (r, ended, globals, classes, null) = started-setup e s in
    let disabled : g.cache_enable_cli ≡ false =
      ap (λ (g : Globals Cache). g.cache_enable_cli) fields ∙ off in
    let uncached : r.globals.cache ≡ none =
      ap (λ (g : Globals Cache). g.cache) globals
      ∙ (unfold ginit in ap (λ (g : Globals Cache). g.cache) fields) in
    (
      r,
      module_start-setup e (suc n) s r (rw cli (minit-cli e.backends n g disabled)) ended,
      null,
      render-silent l (world_of find r.globals w) type input z_context z_options
          (ap (find_in find) uncached),
    )
