-- ===== src/Vm/Render/Session/Saved.antt =====
-- What a call of `render` of src/vm.c that makes a module runs and saves.
use php_handlebars.Base.{
  ◌≡◌, refl, sym, ap, ◌∙◌, ◌⊎◌, Bool, arith, inl, inr, Option, none, some, List, [], ◌∷◌, ◌++◌,
  Text,
}
use php_handlebars.Zend.{Zval}
use php_handlebars.Zend.Outcome.{Outcome, ok, throw, aborted, runtime_exception}
use php_handlebars.Libhandlebars.{Library, LibResult, Vm, returns, raises, php_handlebars_try}
use php_handlebars.Value.{Value, no_fields}
use php_handlebars.Vm.Compile.{Compiled}
use php_handlebars.Vm.Compile.Stages.{retarget}
use php_handlebars.Vm.Render.{
  CacheEvent, found, added, released, World, context_value, returned_buffer, add_event, execute,
  run_saves, saved_in, run_made, new_vm, finish, Rendered,
}
use php_handlebars.Vm.Render.Session.{Added, AsksForPartials, with_cache}

pub Added-append :
    (id bytes : Text) (s t : List CacheEvent)
    → Added id bytes (s ++ t)
    → Added id bytes s ⊎ Added id bytes t
Added-append id bytes [] t a = inr a
Added-append id bytes (added j m ∷ s) t (inl e) = inl (inl e)
Added-append id bytes (added j m ∷ s) t (inr a) = elim (Added-append id bytes s t a) [
  | inl b ↦ inl (inr b)
  | inr b ↦ inr b
]
Added-append id bytes (found j m ∷ s) t a = Added-append id bytes s t a
Added-append id bytes (released j m ∷ s) t a = Added-append id bytes s t a

-- What the vm saved is not changed at `done`.
pub saved-finish :
    (from_cache : Bool) (id : Option Text) (r : Rendered) → (finish from_cache id r).saved ≡ r.saved
unfolding finish
saved-finish from_cache id r = ground arith

module _ {Ast Program : Type 0} (l : Library Ast Program) (w : World) where
  -- The vm of a call with a cache or without one.
  abbrev pub vm_with : Option (Text → Option Text) → Vm
  vm_with cache = new_vm (with_cache w cache)

  -- What is saved is what was compiled.
  pub run_made-Added :
      (c : Text → Option Text) (vm : Option Vm) (tmpl id bytes : Text) (t : List CacheEvent)
      (z_context : Option Zval) (o : Outcome (Option Compiled))
      → Added id bytes
          (run_made l (with_cache w (some c)) (some tmpl) t z_context (retarget vm o)).trace
      → Added id bytes t ⊎ ((m : Compiled) × (o ≡ ok (some m)) × (m.bytes ≡ bytes) × (tmpl ≡ id))
  unfolding run_made add_event
  run_made-Added c vm tmpl id bytes t z_context (ok none) a = inl a
  run_made-Added c vm tmpl id bytes t z_context (ok (some m)) a =
      elim (Added-append id bytes t (added tmpl m.bytes ∷ []) a) [
        | inl b ↦ inl b
        | inr b ↦ elim b [ inl (i, e) ↦ inr (m, refl, e, i) | inr none_left ↦ elim none_left [ ] ]
      ]
  run_made-Added c vm tmpl id bytes t z_context (throw e) a = inl a
  run_made-Added c vm tmpl id bytes t z_context aborted a = inl a

  module _ (asks : AsksForPartials l) (alone : w.intern.partials ≡ Value.map no_fields) where
    -- A vm without partials runs a module alike with a cache and without one.
    pub execute-uncached :
        (c : Option (Text → Option Text)) (bytes : Text) (z_context : Option Zval)
        → execute l w (vm_with c) bytes z_context ≡ execute l w (vm_with none) bytes z_context
    unfolding new_vm execute php_handlebars_try
    execute-uncached none bytes z_context = refl
    execute-uncached (some c) bytes z_context = run_alike (context_value z_context)
      where
        run : Vm → Value → Outcome (Option Text)
        run vm context =
            php_handlebars_try runtime_exception (l.execute vm bytes context)
              λ run. ok (returned_buffer run)

        run_alike :
            (r : LibResult Value)
            → php_handlebars_try runtime_exception r (run (vm_with (some c)))
              ≡ php_handlebars_try runtime_exception r (run (vm_with none))
        run_alike (returns context) =
            ap (λ r. php_handlebars_try runtime_exception r λ run. ok (returned_buffer run))
              (asks (vm_with none) c bytes context alone).0
        run_alike (raises e) = refl

    pub run_saves-nothing :
        (c : Option (Text → Option Text)) (bytes : Text) (z_context : Option Zval)
        → run_saves l w (vm_with c) bytes z_context ≡ []
    unfolding new_vm run_saves saved_in
    run_saves-nothing none bytes z_context = refl
    run_saves-nothing (some c) bytes z_context = nothing (context_value z_context)
      where
        nothing :
            (r : LibResult Value)
            → saved_in (some c) r (λ cache context. l.saves cache (vm_with (some c)) bytes context)
              ≡ []
        nothing (returns context) = (asks (vm_with (some c)) c bytes context alone).1
        nothing (raises e) = refl

    -- What is run depends neither on the cache nor on what was said to it.
    pub run_made-result :
        (c c' : Option (Text → Option Text)) (t t' : List CacheEvent) (id : Option Text)
        (z_context : Option Zval) (o : Outcome (Option Compiled))
        → (run_made l (with_cache w c) id t z_context (retarget (some (vm_with c)) o)).result
          ≡ (run_made l (with_cache w c') id t' z_context (retarget (some (vm_with c')) o)).result
    unfolding run_made execute
    run_made-result c c' t t' id z_context (ok none) = refl
    run_made-result c c' t t' id z_context (ok (some m)) =
        execute-uncached c m.bytes z_context ∙ sym (execute-uncached c' m.bytes z_context)
    run_made-result c c' t t' id z_context (throw e) = refl
    run_made-result c c' t t' id z_context aborted = refl

    pub run_made-saves_nothing :
        (c : Option (Text → Option Text)) (t : List CacheEvent) (id : Option Text)
        (z_context : Option Zval) (o : Outcome (Option Compiled))
        → (run_made l (with_cache w c) id t z_context (retarget (some (vm_with c)) o)).saved ≡ []
    unfolding run_made run_saves
    run_made-saves_nothing c t id z_context (ok none) = refl
    run_made-saves_nothing c t id z_context (ok (some m)) = run_saves-nothing c m.bytes z_context
    run_made-saves_nothing c t id z_context (throw e) = refl
    run_made-saves_nothing c t id z_context aborted = refl
