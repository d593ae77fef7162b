-- ===== src/Module/Info.antt =====
-- `PHP_MINFO_FUNCTION(handlebars)` of src/php_handlebars.c: the two tables, on the extension and on the
-- cache.
use php_handlebars.Base.{
  ℕ, ◌+◌, ◌-◌, ◌%◌, ◌^◌, ◌<◌, ◌≤◌, ◌≡◌, refl, Bool, Option, none, some, ◌++◌, List, [], ◌∷◌, Text,
  lit, ltb, arith, if◌then◌else◌,
}

-- What the first table asks libhandlebars and the module's start.
pub record Versions : Type 0 where
  pub has_psr : Bool
  pub version_string : Text
  pub compiled_version : Text
  pub spec_version : Text
  pub mustache_spec_version : Text
  pub xxhash_version : Text
  pub total_size_of_root : ℕ

unfoldable pub version_rows : (ℕ → Text) → Versions → List (Text × Text)
version_rows zu v =
    (lit "Version", lit "1.0.0")
    ∷ (lit "Released", lit "2022-11-27")
    ∷ (lit "Authors", lit "John Boehr <jbboehr@gmail.com> (lead)")
    ∷ (lit "Spec Version", lit "4.7.7")
    ∷ (lit "PSR support", if v.has_psr then lit "active" else lit "inactive")
    ∷ (lit "libhandlebars Version", v.version_string)
    ∷ (lit "libhandlebars Version (compile-time)", v.compiled_version)
    ∷ (lit "libhandlebars Handlebars Spec Version", v.spec_version)
    ∷ (lit "libhandlebars Mustache Spec Version", v.mustache_spec_version)
    ∷ (lit "xxhash version", v.xxhash_version)
    ∷ (lit "Local memory usage", zu v.total_size_of_root)
    ∷ []

-- `struct handlebars_cache_stat`; the numbers are `size_t`.
pub record CacheStat : Type 0 where
  pub backend_name : Text
  pub total_size : ℕ
  pub total_table_size : ℕ
  pub total_entries : ℕ
  pub current_entries : ℕ
  pub total_data_size : ℕ
  pub current_data_size : ℕ
  pub hits : ℕ
  pub misses : ℕ
  pub refcount : ℕ
  pub collisions : ℕ

-- `total > 0 ? total - current : 0`, with the wrap-around of a `size_t`
unfoldable pub free : ℕ → ℕ → ℕ
free total current = if ltb 0 total then (total + 2 ^ 64 - current) % 2 ^ 64 else 0

-- The rows, with `%zu` for the numbers.
unfoldable pub cache_rows : (ℕ → Text) → CacheStat → List (Text × Text)
unfolding free
cache_rows zu stat =
    (lit "Backend", stat.backend_name)
    ∷ (lit "Block size", zu stat.total_size)
    ∷ (lit "Table size", zu stat.total_table_size)
    ∷ (lit "Table entries", zu stat.total_entries)
    ∷ (lit "Table entries used", zu stat.current_entries)
    ∷ (lit "Table entries free", zu (free stat.total_entries stat.current_entries))
    ∷ (lit "Data segment size", zu stat.total_data_size)
    ∷ (lit "Data segment used", zu stat.current_data_size)
    ∷ (lit "Data segment free", zu (free stat.total_data_size stat.current_data_size))
    ∷ (lit "Hits", zu stat.hits)
    ∷ (lit "Misses", zu stat.misses)
    ∷ (lit "Refcount", zu stat.refcount)
    ∷ (lit "Collisions", zu stat.collisions)
    ∷ []

-- The rows of both tables; without a cache there is only the first one.
unfoldable pub info_rows : (ℕ → Text) → Versions → Option CacheStat → List (Text × Text)
unfolding version_rows cache_rows
info_rows zu v none = version_rows zu v
info_rows zu v (some stat) = version_rows zu v ++ cache_rows zu stat

-- What is shown as free and what is shown as used make up the total, as long as no more is used than
-- there is; a cache without a limit, whose total is 0, has nothing free.
pub free-used :
    (total current : ℕ)
    → current ≤ total
    → total < 2 ^ 64
    → (free total current + current ≡ total) × (free 0 current ≡ 0)
unfolding free
free-used total current fits small = (ground arith, refl)
