-- ===== src/Tests/Session.antt =====
-- The theorem on many calls of `render` of src/vm.c, at two calls with one cache, and the one on the
-- strings that a call holds.
use php_handlebars.Base.{
  ◌≡◌, refl, sym, inl, inr, Bool, true, false, Option, none, some, List, [], ◌∷◌, map, Text, lit,
  text_eq, text_eq_sound, if◌then◌else◌, arith, Bool-cases,
}
use php_handlebars.Zend.{pos, Zval, bucket, end, name}
use php_handlebars.Libhandlebars.{Library, raises}
use php_handlebars.Vm.KnownHelpers.{fetch_known_helpers}
use php_handlebars.Vm.ProcessOptions.{process_options}
use php_handlebars.Vm.Compile.{compile, add_helpers, compile_template}
use php_handlebars.Vm.Render.{World, render, input_type_string, cache_id_of, lookup_cache}
use php_handlebars.Vm.Render.Session.{
  Follows, AsksForPartials, Session, ended, calls, call, with_cache,
}
use php_handlebars.Vm.Render.Session.Uncached.{Session-uncached}
use php_handlebars.Vm.Render.Strings.{
  StringEvent, input_string, references, string_events, made_events, compile_events,
}
use php_handlebars.Tests.Fixtures.{test_library, sharing_library, hi_module, caching_world}

abbrev nothing : Text → Option Text
nothing id = none

abbrev only_hi : Text → Option Text
only_hi id = if text_eq id (lit "hi") then some hi_module else none

only_hi-hit : (id bytes : Text) → only_hi id ≡ some bytes → (lit "hi" ≡ id) × (hi_module ≡ bytes)
only_hi-hit id bytes h = elim (Bool-cases (text_eq id (lit "hi"))) [
  | inl e ↦ let same = text_eq_sound id (lit "hi") e in (sym same, ground arith)
  | inr e ↦ absurd (ground arith)
]

pub sharing-AsksForPartials : AsksForPartials sharing_library
sharing-AsksForPartials vm cache bytes context alone = (rw alone refl, rw alone refl)

saved : Follows (call sharing_library caching_world (some nothing) (lit "hi") none) nothing only_hi
unfolding render compile fetch_known_helpers
saved id bytes h = inr (inl (inl (only_hi-hit id bytes h)))

two_calls :
    Session sharing_library caching_world nothing ((lit "hi", none) ∷ (lit "hi", none) ∷ []) (
      (call sharing_library caching_world (some nothing) (lit "hi") none).result
      ∷ (call sharing_library caching_world (some only_hi) (lit "hi") none).result
      ∷ [])
two_calls =
    calls (lit "hi") none (call sharing_library caching_world (some nothing) (lit "hi") none).result
      refl saved
      (calls (lit "hi") none
        (call sharing_library caching_world (some only_hi) (lit "hi") none).result refl
        (λ id bytes h. inl h) ended)

Session-uncached_example :
    ((call sharing_library caching_world (some nothing) (lit "hi") none).result
      ∷ (call sharing_library caching_world (some only_hi) (lit "hi") none).result
      ∷ [])
    ≡ map
        (λ (i : Text × Option Zval). (call sharing_library caching_world none i.0 i.1).result)
        ((lit "hi", none) ∷ (lit "hi", none) ∷ [])
Session-uncached_example =
    Session-uncached sharing_library caching_world nothing
      ((lit "hi", none) ∷ (lit "hi", none) ∷ [])
      ((call sharing_library caching_world (some nothing) (lit "hi") none).result
        ∷ (call sharing_library caching_world (some only_hi) (lit "hi") none).result
        ∷ [])
      sharing-AsksForPartials refl (λ id bytes h. absurd (ground arith)) two_calls

abbrev named_cache_id : Option Zval
named_cache_id = some (Zval.array (bucket (name (lit "cacheId")) (Zval.string (lit "id")) end))

-- A library that parses nothing.
abbrev refusing_library : Library Text Text
refusing_library = record test_library {
  parse = λ t flags. raises (record { num = pos 2; message = lit "error"; external = false });
}

abbrev empty_world : World
empty_world = with_cache caching_world (some nothing)

abbrev kept : Text → Bool
kept tmpl = true

abbrev refused_events : List StringEvent
refused_events =
    string_events refusing_library kept empty_world input_type_string (lit "hi") none named_cache_id

-- The reference that is left behind when the parser fails.
refused-left : references input_string 0 refused_events ≡ some 1
unfolding string_events render made_events compile_events cache_id_of lookup_cache process_options
    add_helpers fetch_known_helpers compile_template compile
refused-left = refl
