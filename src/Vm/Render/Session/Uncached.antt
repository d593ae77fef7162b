-- ===== src/Vm/Render/Session/Uncached.antt =====
-- That many calls of `render` of src/vm.c with one cache return what they return without it.
use php_handlebars.Base.{
  ◌≡◌, refl, sym, ap, ◌∙◌, subst, inl, inr, Option, none, some, List, [], ◌∷◌, map, Text,
  Option-cases,
}
use php_handlebars.Zend.{Zval}
use php_handlebars.Zend.Outcome.{Outcome, ok}
use php_handlebars.Libhandlebars.{Library}
use php_handlebars.Vm.Compile.{Compiled}
use php_handlebars.Value.{Value, no_fields}
use php_handlebars.Vm.Compile.Stages.{retarget, compile_plain-vm, compile_plain-retarget}
use php_handlebars.Vm.Render.{
  World, Rendered, found, released, execute, run_saves, input_type_string, is_stale, lookup_cache,
  not_found, make_module, run_made, cache_id_of,
}
use php_handlebars.Vm.Render.Cache.{IsFreshHit, render_fresh_hit}
use php_handlebars.Vm.Render.Missed.{render-missed}
use php_handlebars.Vm.Render.Session.Saved.{
  vm_with, execute-uncached, run_saves-nothing, run_made-result, run_made-saves_nothing,
  run_made-Added,
}
use php_handlebars.Vm.Render.Session.{
  Added, Saved, Follows, AsksForPartials, with_cache, call, made, IsTrue, Session, ended, calls,
}

id-tmpl : (tmpl : Text) → cache_id_of input_type_string none tmpl ≡ ok (some tmpl)
unfolding cache_id_of
id-tmpl tmpl = refl

module _ {Ast Program : Type 0} (l : Library Ast Program) (w : World) where
  -- With no module under the template, or no cache at all, it is compiled.
  call-missed :
      (cache : Option (Text → Option Text)) (tmpl : Text) (z_context : Option Zval)
      → lookup_cache l (with_cache w cache) input_type_string tmpl (some tmpl) ≡ not_found
      → call l w cache tmpl z_context
        ≡ run_made l
            (with_cache w cache)
            (some tmpl)
            []
            z_context
            (retarget (some (vm_with l w cache)) (made l w tmpl))
  unfolding make_module
  call-missed cache tmpl z_context missed =
      render-missed l (with_cache w cache) input_type_string tmpl z_context none (some tmpl)
        (id-tmpl tmpl) missed
      ∙ ap (run_made l (with_cache w cache) (some tmpl) [] z_context) (
          compile_plain-retarget l (vm_with l w none) (vm_with l w cache) tmpl
            (w.iterated w.intern.helpers))

  lookup-none :
      (c : Text → Option Text) (tmpl : Text)
      → c tmpl ≡ none
      → lookup_cache l (with_cache w (some c)) input_type_string tmpl (some tmpl) ≡ not_found
  unfolding lookup_cache
  lookup-none c tmpl miss = rw miss refl

  lookup-uncached :
      (tmpl : Text)
      → lookup_cache l (with_cache w none) input_type_string tmpl (some tmpl) ≡ not_found
  unfolding lookup_cache
  lookup-uncached tmpl = refl

  hit-IsFreshHit :
      (c : Text → Option Text) (tmpl bytes : Text)
      → c tmpl ≡ some bytes
      → IsFreshHit l (with_cache w (some c)) input_type_string tmpl tmpl bytes
  unfolding is_stale
  hit-IsFreshHit c tmpl bytes hit = record {
    find_module = c;
    cached = refl;
    hit = hit;
    fresh = refl;
  }

  call-hit :
      (c : Text → Option Text) (tmpl bytes : Text) (z_context : Option Zval)
      → c tmpl ≡ some bytes
      → call l w (some c) tmpl z_context ≡ record {
        result = execute l w (vm_with l w (some c)) bytes z_context;
        trace = found tmpl bytes ∷ released tmpl (some bytes) ∷ [];
        bytes = some bytes;
        saved = run_saves l w (vm_with l w (some c)) bytes z_context;
      }
  unfolding execute run_saves
  call-hit c tmpl bytes z_context hit =
      render_fresh_hit l (with_cache w (some c)) input_type_string tmpl tmpl bytes z_context none
        (id-tmpl tmpl) (hit-IsFreshHit c tmpl bytes hit)

  module _ (asks : AsksForPartials l) (alone : w.intern.partials ≡ Value.map no_fields) where
    call-result :
        (c : Text → Option Text) (tmpl : Text) (z_context : Option Zval)
        → IsTrue l w c
        → (call l w (some c) tmpl z_context).result ≡ (call l w none tmpl z_context).result
    unfolding run_made execute
    call-result c tmpl z_context t = elim (Option-cases (c tmpl)) [
      | inl miss ↦
          ap (λ (r : Rendered). r.result)
            (call-missed (some c) tmpl z_context (lookup-none c tmpl miss))
          ∙ run_made-result l w asks alone (some c) none [] [] (some tmpl) z_context (made l w tmpl)
          ∙ sym direct
      | inr (bytes, hit) ↦
          ap (λ (r : Rendered). r.result) (call-hit c tmpl bytes z_context hit)
          ∙ execute-uncached l w asks alone (some c) bytes z_context
          ∙ sym (
              direct
              ∙ ap
                  (λ m.
                    (run_made l (with_cache w none) (some tmpl) [] z_context
                      (retarget (some (vm_with l w none)) m)).result)
                  (t tmpl bytes hit))
    ]
      where
        direct :
            (call l w none tmpl z_context).result
            ≡ (run_made l
                (with_cache w none)
                (some tmpl)
                []
                z_context
                (retarget (some (vm_with l w none)) (made l w tmpl))).result
        direct =
            ap (λ (r : Rendered). r.result) (call-missed none tmpl z_context (lookup-uncached tmpl))

    call-saves_nothing :
        (c : Text → Option Text) (tmpl : Text) (z_context : Option Zval)
        → (call l w (some c) tmpl z_context).saved ≡ []
    call-saves_nothing c tmpl z_context = elim (Option-cases (c tmpl)) [
      | inl miss ↦
          ap (λ (r : Rendered). r.saved)
            (call-missed (some c) tmpl z_context (lookup-none c tmpl miss))
          ∙ run_made-saves_nothing l w asks alone (some c) [] (some tmpl) z_context (made l w tmpl)
      | inr (bytes, hit) ↦
          ap (λ (r : Rendered). r.saved) (call-hit c tmpl bytes z_context hit)
          ∙ run_saves-nothing l w asks alone (some c) bytes z_context
    ]

  -- What a call saves is what compiling the template gives.
  call-Added :
      (c : Text → Option Text) (tmpl id bytes : Text) (z_context : Option Zval)
      → Added id bytes (call l w (some c) tmpl z_context).trace
      → made l w id ≡ ok (some (record { bytes = bytes; vm = some (vm_with l w none) }))
  call-Added c tmpl id bytes z_context a = elim (Option-cases (c tmpl)) [
    | inl miss ↦
        let missed = call-missed (some c) tmpl z_context (lookup-none c tmpl miss) in
        elim (run_made-Added l w c (some (vm_with l w (some c))) tmpl id bytes [] z_context
          (made l w tmpl) (subst (λ (r : Rendered). Added id bytes r.trace) missed a)) [
            | inl x ↦ absurd x
            | inr (m, compiled, same_bytes, same_id) ↦
                let vm : m.vm ≡ some (vm_with l w none) =
                  compile_plain-vm l (vm_with l w none) tmpl (w.iterated w.intern.helpers) m
                    compiled in
                let whole : m ≡ record { bytes = bytes; vm = some (vm_with l w none) } = cc in
                subst
                  (λ (t : Text).
                    made l w t ≡ ok (some (record { bytes = bytes; vm = some (vm_with l w none) })))
                  same_id (compiled ∙ ap (λ (m : Compiled). ok (some m)) whole)
          ]
    | inr (bytes', hit) ↦
        absurd (
          subst (λ (r : Rendered). Added id bytes r.trace) (call-hit c tmpl bytes' z_context hit) a)
  ]

  module _ (asks : AsksForPartials l) (alone : w.intern.partials ≡ Value.map no_fields) where
    call-IsTrue :
        (c c' : Text → Option Text) (tmpl : Text) (z_context : Option Zval)
        → IsTrue l w c
        → Follows (call l w (some c) tmpl z_context) c c'
        → IsTrue l w c'
    call-IsTrue c c' tmpl z_context t follows id bytes h = elim (follows id bytes h) [
      | inl kept ↦ t id bytes kept
      | inr (inl a) ↦ call-Added c tmpl id bytes z_context a
      | inr (inr a) ↦
          absurd (subst (Saved id bytes) (call-saves_nothing asks alone c tmpl z_context) a)
    ]

  -- An object without partials, and a vm that uses the cache it is given for partials only: however many
  -- templates are rendered in whatever order, each with its context and without options, with a cache
  -- that may forget what was saved in it but makes nothing up, and that has at first only what
  -- compiling its ids gives (nothing, for example): every call returns or throws what it would without a
  -- cache.
  pub Session-uncached :
      (c : Text → Option Text) (inputs : List (Text × Option Zval))
      (results : List (Outcome (Option Text)))
      → AsksForPartials l
      → w.intern.partials ≡ Value.map no_fields
      → IsTrue l w c
      → Session l w c inputs results
      → results ≡ map (λ i. (call l w none i.0 i.1).result) inputs
  Session-uncached c inputs results asks alone t ended = refl
  Session-uncached c inputs results asks alone t
        (calls {c' = c'} {inputs = inputs'} {results = results'} tmpl z_context result returned
          follows rest) =
      let ih =
        Session-uncached c' inputs' results' asks alone
          (call-IsTrue asks alone c c' tmpl z_context t follows) rest in
      let head = returned ∙ call-result asks alone c tmpl z_context t in cc
