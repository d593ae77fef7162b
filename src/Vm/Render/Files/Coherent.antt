-- ===== src/Vm/Render/Files/Coherent.antt =====
-- That `renderFile` of src/vm.c with a cache returns what it returns without it, while files change.
use php_handlebars.Base.{
  ◌≡◌, ◌≢◌, ◌⊎◌, refl, sym, ap, ◌∙◌, subst, inl, inr, true, false, Option, none, some, List, [],
  ◌∷◌, Text, Option-cases, Bool-cases, arith,
}
use php_handlebars.Zend.{ℤ, Zval}
use php_handlebars.Zend.Outcome.{Outcome, ok, throw, aborted}
use php_handlebars.Libhandlebars.{Library}
use php_handlebars.Value.{Value, no_fields}
use php_handlebars.Vm.Compile.{Compiled}
use php_handlebars.Vm.Compile.Stages.{retarget}
use php_handlebars.Vm.Render.{
  CacheEvent, found, released, World, Rendered, input_type_filename, greater, make_module,
  read_file, execute, run_saves, run_made, new_vm, finish,
}
use php_handlebars.Vm.Render.Trace.{result-finish, finish-released}
use php_handlebars.Vm.Render.Cache.{render_fresh_hit}
use php_handlebars.Vm.Render.Session.{Added, Saved, Follows, AsksForPartials, with_cache}
use php_handlebars.Vm.Render.Session.Saved.{
  Added-append, saved-finish, vm_with, execute-uncached, run_saves-nothing, run_made-result,
  run_made-saves_nothing, run_made-Added,
}
use php_handlebars.Vm.Render.Files.{
  file_call, made_file, IsOutdated, IsCoherent, with_files, History, ended, calls, edits,
}
use php_handlebars.Vm.Render.Files.Calls.{
  id-file, stale_events, made_file-vm, lookup-uncached, lookup-none, compiled_run, file-missed,
  fresh-IsFreshHit, file-stale,
}

finish-Added :
    (id bytes file : Text) (r : Rendered)
    → Added id bytes (finish true (some file) r).trace
    → Added id bytes r.trace
finish-Added id bytes file r a = by_result r.result refl
  where
    ended : r.result ≢ aborted → Added id bytes r.trace
    ended h =
        let released_once =
          subst (λ (s : Rendered). Added id bytes s.trace) (finish-released file r h) a in
        elim (Added-append id bytes r.trace (released file r.bytes ∷ []) released_once) [
          | inl b ↦ b
          | inr b ↦ absurd b
        ]

    by_result : (o : Outcome (Option Text)) → r.result ≡ o → Added id bytes r.trace
    by_result (ok v) e = ended (λ h. cc)
    by_result (throw x) e = ended (λ h. cc)
    by_result aborted e =
        let stopped : finish true (some file) r ≡ r = unfold finish in ground arith in
        subst (λ (s : Rendered). Added id bytes s.trace) stopped a

module _ {Ast Program : Type 0} (l : Library Ast Program) (w : World)
    (on : w.cache_stat ≡ true) where
  file-hit :
      (c : Text → Option Text) (file bytes : Text) (z_context : Option Zval)
      → c file ≡ some bytes
      → greater (w.mtime file) (l.get_ts bytes) ≡ false
      → file_call l w (some c) file z_context ≡ record {
        result = execute l w (vm_with l w (some c)) bytes z_context;
        trace = found file bytes ∷ released file (some bytes) ∷ [];
        bytes = some bytes;
        saved = run_saves l w (vm_with l w (some c)) bytes z_context;
      }
  unfolding execute run_saves
  file-hit c file bytes z_context hit new =
      render_fresh_hit l (with_cache w (some c)) input_type_filename file file bytes z_context none
        (id-file file) (fresh-IsFreshHit l w c file bytes hit on new)

  module _ (asks : AsksForPartials l) (alone : w.intern.partials ≡ Value.map no_fields) where
    file-result :
        (c : Text → Option Text) (file : Text) (z_context : Option Zval)
        → IsCoherent l w c
        → (file_call l w (some c) file z_context).result
          ≡ (file_call l w none file z_context).result
    unfolding run_made execute
    file-result c file z_context coherent = elim (Option-cases (c file)) [
      | inl miss ↦
          ap (λ (r : Rendered). r.result)
            (file-missed l w (some c) file z_context (lookup-none l w c file miss))
          ∙ run_made-result l w asks alone (some c) none [] [] (some file) z_context
              (made_file l w file)
          ∙ sym direct
      | inr (bytes, hit) ↦ elim (Bool-cases (greater (w.mtime file) (l.get_ts bytes))) [
        | inl old ↦
            ap (λ (r : Rendered). r.result) (file-stale l w c file bytes hit on z_context old)
            ∙ result-finish true (some file)
                (compiled_run l w (some c) file (stale_events file bytes) z_context)
            ∙ run_made-result l w asks alone (some c) none (stale_events file bytes) [] (some file)
                z_context (made_file l w file)
            ∙ sym direct
        | inr new ↦ elim (coherent file bytes hit) [
          | inl old ↦ cc
          | inr made ↦
              ap (λ (r : Rendered). r.result) (file-hit c file bytes z_context hit new)
              ∙ execute-uncached l w asks alone (some c) bytes z_context
              ∙ sym (
                  direct
                  ∙ ap
                      (λ m.
                        (run_made l (with_cache w none) (some file) [] z_context
                          (retarget (some (vm_with l w none)) m)).result)
                      made)
        ]
      ]
    ]
      where
        direct :
            (file_call l w none file z_context).result
            ≡ (compiled_run l w none file [] z_context).result
        direct =
            ap (λ (r : Rendered). r.result)
              (file-missed l w none file z_context (lookup-uncached l w file))

    file-saves_nothing :
        (c : Text → Option Text) (file : Text) (z_context : Option Zval)
        → (file_call l w (some c) file z_context).saved ≡ []
    file-saves_nothing c file z_context = elim (Option-cases (c file)) [
      | inl miss ↦
          ap (λ (r : Rendered). r.saved)
            (file-missed l w (some c) file z_context (lookup-none l w c file miss))
          ∙ run_made-saves_nothing l w asks alone (some c) [] (some file) z_context
              (made_file l w file)
      | inr (bytes, hit) ↦ elim (Bool-cases (greater (w.mtime file) (l.get_ts bytes))) [
        | inl old ↦
            ap (λ (r : Rendered). r.saved) (file-stale l w c file bytes hit on z_context old)
            ∙ saved-finish true (some file)
                (compiled_run l w (some c) file (stale_events file bytes) z_context)
            ∙ run_made-saves_nothing l w asks alone (some c) (stale_events file bytes) (some file)
                z_context (made_file l w file)
        | inr new ↦
            ap (λ (r : Rendered). r.saved) (file-hit c file bytes z_context hit new)
            ∙ run_saves-nothing l w asks alone (some c) bytes z_context
      ]
    ]

  -- What a call saves is what reading and compiling the file gives.
  file-Added :
      (c : Text → Option Text) (file id bytes : Text) (z_context : Option Zval)
      → IsCoherent l w c
      → Added id bytes (file_call l w (some c) file z_context).trace
      → made_file l w id ≡ ok (some (record { bytes = bytes; vm = some (vm_with l w none) }))
  file-Added c file id bytes z_context coherent a = elim (Option-cases (c file)) [
    | inl miss ↦
        let missed = file-missed l w (some c) file z_context (lookup-none l w c file miss) in
        saved [] (λ b. b) (subst (λ (r : Rendered). Added id bytes r.trace) missed a)
    | inr (m, hit) ↦ elim (Bool-cases (greater (w.mtime file) (l.get_ts m))) [
      | inl old ↦
          let stale = file-stale l w c file m hit on z_context old in
          saved (stale_events file m) (λ b. b)
            (finish-Added id bytes file
              (compiled_run l w (some c) file (stale_events file m) z_context)
              (subst (λ (r : Rendered). Added id bytes r.trace) stale a))
      | inr new ↦
          absurd (
            subst (λ (r : Rendered). Added id bytes r.trace) (file-hit c file m z_context hit new)
              a)
    ]
  ]
    where
      saved :
          (t : List CacheEvent)
          → (Added id bytes t → ⊥)
          → Added id bytes (compiled_run l w (some c) file t z_context).trace
          → made_file l w id ≡ ok (some (record { bytes = bytes; vm = some (vm_with l w none) }))
      saved t nothing b =
          elim (run_made-Added l w c (some (vm_with l w (some c))) file id bytes t z_context
            (made_file l w file) b) [
              | inl x ↦ absurd (nothing x)
              | inr (m, compiled, same_bytes, same_id) ↦
                  let vm = made_file-vm l w file m compiled in
                  let whole : m ≡ record { bytes = bytes; vm = some (vm_with l w none) } = cc in
                  subst
                    (λ (f : Text).
                      made_file l w f
                      ≡ ok (some (record { bytes = bytes; vm = some (vm_with l w none) })))
                    same_id (compiled ∙ ap (λ (m : Compiled). ok (some m)) whole)
            ]

  file-IsCoherent :
      (c c' : Text → Option Text) (file : Text) (z_context : Option Zval)
      → AsksForPartials l
      → w.intern.partials ≡ Value.map no_fields
      → IsCoherent l w c
      → Follows (file_call l w (some c) file z_context) c c'
      → IsCoherent l w c'
  file-IsCoherent c c' file z_context asks alone coherent follows id bytes h =
      elim (follows id bytes h) [
        | inl kept ↦ coherent id bytes kept
        | inr (inl a) ↦ inr (file-Added c file id bytes z_context coherent a)
        | inr (inr a) ↦
            absurd (subst (Saved id bytes) (file-saves_nothing asks alone c file z_context) a)
      ]

module _ {Ast Program : Type 0} (l : Library Ast Program) where
  made_file-with_files :
      (w : World) (open_stream : Text → Option (Option Text)) (mtime : Text → ℤ) (file : Text)
      → open_stream file ≡ w.open_stream file
      → made_file l (with_files w open_stream mtime) file ≡ made_file l w file
  unfolding make_module read_file new_vm
  made_file-with_files w open_stream mtime file same = rw same refl

  edits-IsCoherent :
      (w : World) (c : Text → Option Text) (open_stream : Text → Option (Option Text))
      (mtime : Text → ℤ)
      → IsCoherent l w c
      → ((file bytes : Text)
          → c file ≡ some bytes
          → ((open_stream file ≡ w.open_stream file) × (mtime file ≡ w.mtime file))
            ⊎ IsOutdated l (with_files w open_stream mtime) file bytes)
      → IsCoherent l (with_files w open_stream mtime) c
  unfolding new_vm
  edits-IsCoherent w c open_stream mtime coherent edited file bytes h = elim (edited file bytes h) [
    | inl (same, untouched) ↦ elim (coherent file bytes h) [
      | inl old ↦ inl (rw untouched old)
      | inr made ↦ inr (made_file-with_files w open_stream mtime file same ∙ made)
    ]
    | inr old ↦ inl old
  ]

  -- An object without partials, a vm that uses the cache it is given for partials only, and
  -- `cache.stat` on: with a cache that may forget what was saved in it but makes nothing up, and that
  -- has at first only modules that are outdated or that their files still give (none, for example),
  -- however `renderFile` without options and changes of files follow one another, if a file that
  -- changes gets a later time than that of its module in the cache, every call returns or throws
  -- what it would at that time without a cache.
  pub History-uncached :
      (w : World) (c : Text → Option Text) (results direct : List (Outcome (Option Text)))
      → AsksForPartials l
      → w.intern.partials ≡ Value.map no_fields
      → w.cache_stat ≡ true
      → IsCoherent l w c
      → History l w c results direct
      → results ≡ direct
  History-uncached w c results direct asks alone on coherent ended = refl
  History-uncached w c results direct asks alone on coherent
        (calls {c' = c'} {results = results'} {direct = direct'} file z_context result uncached
          returned single follows rest) =
      let ih =
        History-uncached w c' results' direct' asks alone on
          (file-IsCoherent l w on c c' file z_context asks alone coherent follows) rest in
      let head = returned ∙ file-result l w on asks alone c file z_context coherent ∙ sym single in
      cc
  History-uncached w c results direct asks alone on coherent (edits open_stream mtime edited rest) =
      History-uncached (with_files w open_stream mtime) c results direct asks alone on
        (edits-IsCoherent w c open_stream mtime coherent edited) rest
