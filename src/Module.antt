-- ===== src/Module.antt =====
-- src/php_handlebars.c: the module's globals, the choice of the cache at its start, and the function
-- `handlebars_cache_reset`.
pub mod Ini
pub mod Start
pub mod Startup
pub mod Info
use php_handlebars.Base.{
  ℕ, suc, zero, Bool, true, false, ◌&&◌, not, Option, none, some, Text, lit, text_eq, if◌then◌else◌,
}
use php_handlebars.Zend.{ℤ, pos, negsuc}
use php_handlebars.Libhandlebars.{LibResult, returns, raises}

-- `ZEND_BEGIN_MODULE_GLOBALS`, as far as the cache needs them; `cache` may be NULL.
pub record Globals (Cache : Type 0) : Type 0 where
  pub pool_size : ℤ
  pub cache_enable : Bool
  pub cache_enable_cli : Bool
  pub cache_backend : Text
  pub cache_save_path : Text
  pub cache_max_size : ℤ
  pub cache_max_entries : ℤ
  pub cache_max_age : ℤ
  pub cache_stat : Bool
  pub cache : Option Cache

-- The constructors of libhandlebars's caches; those for lmdb and mmap may not be compiled in.
pub record Backends (Cache : Type 0) : Type 0 where
  pub simple_ctor : LibResult Cache
  pub lmdb_ctor : Option (Text → LibResult Cache)
  pub mmap_ctor : Option (ℤ → ℤ → LibResult Cache)

-- `PHP_GINIT_FUNCTION(handlebars)`
unfoldable pub ginit : {Cache : Type 0} → Globals Cache
ginit = record {
  pool_size = pos 0;
  cache_enable = true;
  cache_enable_cli = false;
  cache_backend = lit "mmap";
  cache_save_path = lit "/tmp/php-handlebars-cache";
  cache_max_size = pos 52428800;
  cache_max_entries = pos 349529;
  cache_max_age = negsuc 0;
  cache_stat = false;
  cache = none;
}

-- What the setup comes to: the globals, and the back end for the constant `CACHE_BACKEND`.
pub record Setup (Cache : Type 0) : Type 0 where
  pub globals : Globals Cache
  pub backend : Option Text

module _ {Cache : Type 0} where
  -- The cache that a constructor returned, in the globals.
  unfoldable pub built : Globals Cache → LibResult Cache → LibResult (Setup Cache)
  built g (returns c) =
      returns (record { globals = record g { cache = some c }; backend = some g.cache_backend })
  built g (raises e) = raises e

  unfoldable pub no_backend : Globals Cache → LibResult (Setup Cache)
  no_backend g = returns (record { globals = g; backend = none })

  unfoldable pub mmap_backend : Backends Cache → Globals Cache → LibResult (Setup Cache)
  unfolding built no_backend
  mmap_backend b g = elim b.mmap_ctor [
    | none ↦ no_backend g
    | some ctor ↦
        if text_eq g.cache_backend (lit "mmap")
        then built g (ctor g.cache_max_size g.cache_max_entries)
        else no_backend g
  ]

  unfoldable pub lmdb_backend : Backends Cache → Globals Cache → LibResult (Setup Cache)
  unfolding built mmap_backend
  lmdb_backend b g = elim b.lmdb_ctor [
    | none ↦ mmap_backend b g
    | some ctor ↦
        if text_eq g.cache_backend (lit "lmdb")
        then built g (ctor g.cache_save_path)
        else mmap_backend b g
  ]

  -- What follows the `setjmp`.
  unfoldable pub setup_cache : Backends Cache → Globals Cache → LibResult (Setup Cache)
  unfolding built no_backend lmdb_backend
  setup_cache b g =
      if g.cache_enable
      then (if text_eq g.cache_backend (lit "simple")
          then built g b.simple_ctor
          else lmdb_backend b g)
      else no_backend g

  -- A raised error comes back to the `setjmp`, which disables the cache and goes on from there; each
  -- round takes one of the given number.
  unfoldable pub rounds : ℕ → Backends Cache → Globals Cache → Option (Setup Cache)
  unfolding setup_cache
  rounds zero b g = none
  rounds (suc n) b g = elim (setup_cache b g) [
    | returns s ↦ some s
    | raises e ↦ rounds n b (record g { cache_enable = false })
  ]

  -- On the command line the cache is off unless it is enabled for it.
  unfoldable pub disable_cli : Bool → Globals Cache → Globals Cache
  disable_cli is_cli g =
      if not g.cache_enable_cli && is_cli then record g { cache_enable = false } else g

  -- The setup of the cache in `PHP_MINIT_FUNCTION(handlebars)`.
  unfoldable pub minit : ℕ → Bool → Backends Cache → Globals Cache → Option (Setup Cache)
  unfolding rounds disable_cli
  minit n is_cli b g = rounds n b (disable_cli is_cli g)

  -- `handlebars_cache_reset` as a function of PHP: what it returns, and the cache that it resets.
  unfoldable pub cache_reset : Globals Cache → Bool × Option Cache
  cache_reset g =
      if g.cache_enable
      then (elim g.cache [ none ↦ (false, none) | some c ↦ (true, some c) ])
      else (false, none)
