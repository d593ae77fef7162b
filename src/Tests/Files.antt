-- ===== src/Tests/Files.antt =====
-- The theorem on calls of `renderFile` of src/vm.c between changes of files, at a file that is
-- written twice.
use php_handlebars.Base.{
  ◌≡◌, refl, sym, inl, inr, Option, none, some, [], ◌∷◌, Text, lit, text_eq, text_eq_sound,
  if◌then◌else◌, arith, Bool-cases,
}
use php_handlebars.Zend.{ℤ, pos}
use php_handlebars.Vm.KnownHelpers.{fetch_known_helpers}
use php_handlebars.Vm.Compile.{compile}
use php_handlebars.Vm.Render.{World, render}
use php_handlebars.Vm.Render.Session.{Follows}
use php_handlebars.Vm.Render.Files.{file_call, with_files, History, ended, calls, edits}
use php_handlebars.Vm.Render.Files.Coherent.{History-uncached}
use php_handlebars.Tests.Session.{sharing-AsksForPartials}
use php_handlebars.Tests.Fixtures.{sharing_library, hi_module, caching_world}

abbrev empty_cache : Text → Option Text
empty_cache id = none

abbrev page_cache : Text → Option Text
page_cache id = if text_eq id (lit "a.hbs") then some hi_module else none

page_cache-hit :
    (id bytes : Text) → page_cache id ≡ some bytes → (lit "a.hbs" ≡ id) × (hi_module ≡ bytes)
page_cache-hit id bytes h = elim (Bool-cases (text_eq id (lit "a.hbs"))) [
  | inl e ↦ let same = text_eq_sound id (lit "a.hbs") e in (sym same, ground arith)
  | inr e ↦ absurd (ground arith)
]

abbrev bye_contents : Text → Option (Option Text)
bye_contents file = some (some (lit "bye"))

abbrev later : Text → ℤ
later file = pos 200

abbrev edited_world : World
edited_world = with_files caching_world bye_contents later

page-saved :
    Follows
      (file_call sharing_library caching_world (some empty_cache) (lit "a.hbs") none)
      empty_cache
      page_cache
unfolding render compile fetch_known_helpers
page-saved id bytes h = inr (inl (inl (page_cache-hit id bytes h)))

written_twice :
    History sharing_library caching_world empty_cache
      ((file_call sharing_library caching_world (some empty_cache) (lit "a.hbs") none).result
        ∷ (file_call sharing_library edited_world (some page_cache) (lit "a.hbs") none).result
        ∷ [])
      ((file_call sharing_library caching_world none (lit "a.hbs") none).result
        ∷ (file_call sharing_library edited_world none (lit "a.hbs") none).result
        ∷ [])
written_twice =
    calls (lit "a.hbs") none
      (file_call sharing_library caching_world (some empty_cache) (lit "a.hbs") none).result
      (file_call sharing_library caching_world none (lit "a.hbs") none).result refl refl page-saved
      (edits bye_contents later (λ file bytes h. inr refl)
        (calls (lit "a.hbs") none
          (file_call sharing_library edited_world (some page_cache) (lit "a.hbs") none).result
          (file_call sharing_library edited_world none (lit "a.hbs") none).result refl refl
          (λ id bytes h. inl h) ended))

History-uncached_example :
    ((file_call sharing_library caching_world (some empty_cache) (lit "a.hbs") none).result
      ∷ (file_call sharing_library edited_world (some page_cache) (lit "a.hbs") none).result
      ∷ [])
    ≡ ((file_call sharing_library caching_world none (lit "a.hbs") none).result
        ∷ (file_call sharing_library edited_world none (lit "a.hbs") none).result
        ∷ [])
History-uncached_example =
    History-uncached sharing_library caching_world empty_cache
      ((file_call sharing_library caching_world (some empty_cache) (lit "a.hbs") none).result
        ∷ (file_call sharing_library edited_world (some page_cache) (lit "a.hbs") none).result
        ∷ [])
      ((file_call sharing_library caching_world none (lit "a.hbs") none).result
        ∷ (file_call sharing_library edited_world none (lit "a.hbs") none).result
        ∷ [])
      sharing-AsksForPartials refl refl (λ file bytes h. absurd (ground arith)) written_twice
