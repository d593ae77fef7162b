-- ===== src/Module/Start.antt =====
-- The setup of the cache at the module's start in src/php_handlebars.c.
use php_handlebars.Base.{
  ℕ, suc, ◌≡◌, refl, inl, inr, Bool, false, ◌&&◌, not, Option, none, some, is_some, Text, arith,
}
use php_handlebars.Libhandlebars.{LibResult-cases, returns}
use php_handlebars.Module.{
  Globals, Backends, Setup, setup_cache, rounds, disable_cli, minit, cache_reset,
}

-- The back end's name, or the given one where there is none.
abbrev pub name_or : Option Text → Text → Text
name_or none default = default
name_or (some backend) default = backend

module _ {Cache : Type 0} (b : Backends Cache) where
  rounds-two :
      (n : ℕ) (g : Globals Cache)
      → (s : Setup Cache) × (rounds (suc (suc n)) b g ≡ some s) × (rounds 2 b g ≡ some s)
  unfolding rounds
  rounds-two n g = elim (LibResult-cases (setup_cache b g)) [
    | inl (s, e) ↦ (s, rw (rounds, e) refl, rw (rounds, e) refl)
    | inr (x, e) ↦
        let off : Globals Cache = record g { cache_enable = false } in
        (record { globals = off; backend = none }, rw (rounds, e) refl, rw (rounds, e) refl)
  ]

  -- The setup ends after at most two rounds, whatever the back ends do: an error of the first round
  -- disables the cache, and without it no second error can come back.
  pub minit-ends :
      (n : ℕ) (is_cli : Bool) (g : Globals Cache)
      → (s : Setup Cache) × (minit (suc (suc n)) is_cli b g ≡ some s)
        × (minit 2 is_cli b g ≡ some s)
  unfolding minit
  minit-ends n is_cli g = rounds-two n (disable_cli is_cli g)

  -- The cache is there exactly with a back end's name, which is the one of the globals, and only with
  -- the cache enabled.
  abbrev IsSound : Globals Cache → Setup Cache → Type 0
  IsSound g s =
      (is_some s.globals.cache ≡ is_some s.backend)
      × (name_or s.backend g.cache_backend ≡ g.cache_backend)
      × ((is_some s.backend && not s.globals.cache_enable) ≡ false)
      × (s.globals.cache_enable ≡ g.cache_enable)

  setup_cache-IsSound :
      (g : Globals Cache) (s : Setup Cache)
      → g.cache ≡ none
      → setup_cache b g ≡ returns s
      → IsSound g s
  unfolding setup_cache
  setup_cache-IsSound g s empty h = (ground arith, ground arith, ground arith, ground arith)

  rounds-IsSound :
      (g : Globals Cache) (s : Setup Cache)
      → g.cache ≡ none
      → rounds 2 b g ≡ some s
      → (is_some s.globals.cache ≡ is_some s.backend)
        × (name_or s.backend g.cache_backend ≡ g.cache_backend)
        × ((is_some s.backend && not s.globals.cache_enable) ≡ false)
        × ((is_some s.backend && not g.cache_enable) ≡ false)
  unfolding rounds
  rounds-IsSound g s empty h = elim (LibResult-cases (setup_cache b g)) [
    | inl (t, e) ↦ let (cache, backend, on, same) = setup_cache-IsSound g t empty e in ground arith
    | inr (x, e) ↦ (ground arith, ground arith, ground arith, ground arith)
  ]

  -- After the setup, from globals without a cache, the constant `CACHE_BACKEND` is not null exactly if `handlebars_cache_reset`
  -- returns true; then it is the configured back end, the cache was enabled in the configuration,
  -- and on the command line also for it.
  pub minit-backend :
      (is_cli : Bool) (g : Globals Cache) (s : Setup Cache)
      → g.cache ≡ none
      → minit 2 is_cli b g ≡ some s
      → ((cache_reset s.globals).0 ≡ is_some s.backend)
        × (name_or s.backend g.cache_backend ≡ g.cache_backend)
        × ((is_some s.backend && not g.cache_enable) ≡ false)
        × ((is_some s.backend && (is_cli && not g.cache_enable_cli)) ≡ false)
  unfolding minit disable_cli cache_reset
  minit-backend is_cli g s empty h =
      let (cache, backend, on, was_on) = rounds-IsSound (disable_cli is_cli g) s (ground arith) h in
      (ground arith, ground arith, ground arith, ground arith)
