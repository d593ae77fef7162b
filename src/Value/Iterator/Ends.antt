-- ===== src/Value/Iterator/Ends.antt =====
-- When a loop with the object iterator of src/value.c comes to its end.
use php_handlebars.Base.{
  ℕ, zero, suc, ◌-◌, ◌<◌, ◌≡◌, refl, Bool, true, false, none, some, Text, arith, ◌∙◌, inl, inr,
  Option-cases,
}
use php_handlebars.Libhandlebars.{LibResult, LibResult-cases, returns, raises}
use php_handlebars.Value.FromZval.{from_zval}
use php_handlebars.Value.Iterator.{
  ObjectIterator, Iterator, over_object, iterator_object, object_data, object_key, key_step, step,
}

-- The engine's part of a finite object: a number of elements that are left, which only the step
-- forward changes, and without which the object is not valid.
pub record IsFinite {S : Type 0} (z : ObjectIterator S) (left : S → ℕ) : Type 0 where
  pub valid : (s : S) → (z.valid s).0 ≡ true → 0 < left s
  pub valid_keeps : (s : S) → left (z.valid s).1 ≡ left s
  pub data_keeps : (s : S) → left (z.get_current_data s).1 ≡ left s
  pub key_keeps :
      (get_key : S → Text × S) (s : S)
      → z.get_current_key ≡ some get_key
      → left (get_key s).1 ≡ left s
  pub forward : (s : S) → left (z.move_forward s) ≡ left s - 1

module _ {S : Type 0} (z : ObjectIterator S) where
  -- The loop `do ... while (it->next(it))` stops within so many calls: with no element, or an error.
  abbrev pub ends : ℕ → Iterator S → Bool
  ends zero it = false
  ends (suc n) it = elim (step z it) [
    | returns (true, it') ↦ ends n it'
    | returns (false, it') ↦ true
    | raises x ↦ true
  ]

  module _ (left : S → ℕ) (finite : IsFinite z left) where
    key_step-left :
        (it : Iterator S)
        → (left (key_step z it).engine ≡ left it.engine) × ((key_step z it).next ≡ it.next)
    unfolding key_step
    key_step-left it = elim (Option-cases z.get_current_key) [
      | inl e ↦ (ground (arith, e), ground (arith, e))
      | inr (get_key, e) ↦
          let keeps = finite.key_keeps get_key it.engine e in
          (ground (arith, e, keeps), ground (arith, e))
    ]

    object_key-left :
        (it it' : Iterator S)
        → object_key z it ≡ (true, it')
        → (left it'.engine ≡ left it.engine - 1) × (it'.next ≡ it.next)
    unfolding object_key
    object_key-left it it' h =
        let (left_keyed, next_keyed) = key_step-left it in
        let moved = finite.forward (key_step z it).engine in
        (ground (arith, left_keyed, moved), ground (arith, next_keyed))

    object_data-left :
        (it it' : Iterator S)
        → object_data z it ≡ returns (true, it')
        → (left it'.engine ≡ left it.engine - 1) × (it'.next ≡ it.next)
    unfolding object_data
    object_data-left it it' h =
        let (val, engine) = z.get_current_data it.engine in
        let same = finite.data_keeps it.engine in
        elim (LibResult-cases (from_zval val it.cur)) [
          | inl (v, e) ↦
              let fetched = record it { engine = engine; cur = v } in
              let keyed : object_key z fetched ≡ (true, it') = ground (arith, e) in
              let (fewer, next) = object_key-left fetched it' keyed in
              (ground (arith, same, fewer), next)
          | inr (x, e) ↦ ground (arith, e)
        ]

    iterator_object-left :
        (it it' : Iterator S)
        → iterator_object z it ≡ returns (true, it')
        → (left it'.engine < left it.engine) × (it'.next ≡ it.next)
    unfolding iterator_object
    iterator_object-left it it' h =
        let (is_valid, engine) = z.valid it.engine in
        let same = finite.valid_keeps it.engine in
        let some_left = finite.valid it.engine in
        let started = record it { key = none; engine = engine } in
        let fetched : object_data z started ≡ returns (true, it') = ground arith in
        let (fewer, next) = object_data-left started it' fetched in
        (ground (arith, same, fewer, some_left), next)

    ends-step :
        (n : ℕ) (it : Iterator S) (r : LibResult (Bool × Iterator S))
        → iterator_object z it ≡ r
        → it.next ≡ over_object
        → ((it' : Iterator S)
            → left it'.engine < left it.engine
            → it'.next ≡ over_object
            → ends n it' ≡ true)
        → ends (suc n) it ≡ true
    unfolding step
    ends-step n it (returns (true, it')) e over later =
        let (fewer, next) = iterator_object-left it it' e in
        ground (arith, e, later it' fewer (next ∙ over))
    ends-step n it (returns (false, it')) e over later = ground (arith, e)
    ends-step n it (raises x) e over later = ground (arith, e)

    -- If an object has finitely many elements, which only its step forward uses up, the loop over it
    -- ends: with no element, or an error, after at most one call more than there are elements left.
    pub ends-finite :
        (n : ℕ) (it : Iterator S) → it.next ≡ over_object → left it.engine < n → ends n it ≡ true
    ends-finite zero it over h = absurd (omega arith)
    ends-finite (suc n) it over h =
        ends-step n it (iterator_object z it) refl over
          λ it' fewer next. ends-finite n it' next (omega (arith, fewer, h))
