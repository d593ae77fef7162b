-- ===== src/Tests/Vm.antt =====
-- The theorems on src/vm.c, on a template "hi".
use php_handlebars.Base.{
  ◌≡◌, ◌≢◌, refl, subst, ◌↔◌, false, Option, none, some, [], ◌∷◌, Text, lit, length, arith, ◌+◌,
}
use php_handlebars.Zend.{Buckets, pos, Zval, end, bucket, name, is_true}
use php_handlebars.Zend.Outcome.{ok, aborted, Exception, compile_exception}
use php_handlebars.Libhandlebars.{compat, raises, LibError, Library, Vm}
use php_handlebars.Vm.HashPack.{hash_pack}
use php_handlebars.Vm.Binary.{verify_and_load_module, pack_module}
use php_handlebars.Vm.Binary.Accepted.{
  IsSound, IsFresh, verify_and_load_module_iff, verify-pack_module,
}
use php_handlebars.Vm.KnownHelpers.{fetch_known_helpers}
use php_handlebars.Vm.ProcessOptions.{Processed, process_options}
use php_handlebars.Vm.ProcessOptions.Requested.{
  flags_of, has_flag, requested, has_flag-process_options,
}
use php_handlebars.Vm.Compile.{Compiled, compile, new_compiler, vm_compile}
use php_handlebars.Vm.Render.{
  input_type_string, input_type_filename, input_type_binary, added, found, released, make_module,
  read_file, execute, new_vm, run_saves, render, is_stale, cache_id_of,
}
use php_handlebars.Vm.Render.Cache.{IsFreshHit, IsStaleHit}
use php_handlebars.Vm.Render.Session.{with_cache}
use php_handlebars.Vm.Render.Forgotten.{render-forgets}
use php_handlebars.Vm.Render.Balance.{render_stale_releases_twice}
use php_handlebars.Vm.Render.FromBinary.{SerializesFresh, render-vm_compile}
use php_handlebars.Tests.Fixtures.{
  test_library, hi_module, hi_binary, always_hi, caching_world, stale_world, uncached_world,
}

hi-IsFreshHit :
    IsFreshHit test_library caching_world input_type_string (lit "hi") (lit "hi") hi_module
unfolding is_stale
hi-IsFreshHit = record { find_module = always_hi; cached = refl; hit = refl; fresh = refl }

hi-IsStaleHit :
    IsStaleHit test_library stale_world input_type_filename (lit "hi") (lit "hi") hi_module
unfolding is_stale
hi-IsStaleHit = record { find_module = always_hi; cached = refl; hit = refl; stale = refl }

hi-IsFresh : IsFresh test_library hi_module
hi-IsFresh = record { not_empty = omega arith; sized = refl; current = refl }

serializes_fresh : SerializesFresh test_library
serializes_fresh program bytes h =
    let made : (length program + 2) ∷ 3 ∷ program ≡ bytes = ground arith in
    subst (IsFresh test_library) made
      (record { not_empty = omega arith; sized = omega arith; current = refl })

render-vm_compile_example :
    (c : Compiled) × (compile test_library none (lit "hi") none none ≡ ok (some c))
    × (render test_library uncached_world input_type_binary hi_binary none none ≡ record {
      result = execute test_library uncached_world (new_vm uncached_world) c.bytes none;
      trace = [];
      bytes = some c.bytes;
      saved = [];
    })
unfolding vm_compile pack_module hash_pack run_saves new_vm
render-vm_compile_example =
    render-vm_compile test_library uncached_world (lit "hi") hi_binary none none serializes_fresh
      refl

verify_and_load_module_iff_example :
    (verify_and_load_module test_library hi_binary ≡ ok hi_module)
    ↔ IsSound test_library hi_binary hi_module
verify_and_load_module_iff_example = verify_and_load_module_iff test_library hi_binary hi_module

verify-pack_module_example :
    verify_and_load_module test_library (pack_module test_library hi_module) ≡ ok hi_module
verify-pack_module_example = verify-pack_module test_library hi_module hi-IsFresh

stale_result :
    (render test_library stale_world input_type_filename (lit "hi") none none).result
    ≡ ok (some (lit "hi"))
unfolding render compile fetch_known_helpers
stale_result = refl

stale_result_ne_aborted :
    (render test_library stale_world input_type_filename (lit "hi") none none).result ≢ aborted
stale_result_ne_aborted e = ground (arith, stale_result)

render_stale_releases_twice_example :
    (render test_library stale_world input_type_filename (lit "hi") none none).trace
    ≡ found (lit "hi") hi_module
      ∷ released (lit "hi") (some hi_module)
      ∷ added (lit "hi") hi_module
      ∷ released (lit "hi") (some hi_module)
      ∷ []
unfolding cache_id_of make_module read_file compile fetch_known_helpers
render_stale_releases_twice_example =
    render_stale_releases_twice test_library stale_world input_type_filename (lit "hi") (lit "hi")
      hi_module none none refl hi-IsStaleHit stale_result_ne_aborted

abbrev compat_options : Buckets
compat_options = bucket (name (lit "compat")) is_true end

abbrev not_cached : Text → Option Text
not_cached id = none

abbrev compat_processed : Processed
compat_processed = record {
  compiler = record (new_compiler test_library) { flags = compat ∷ [] };
  vm = some (record (new_vm (with_cache caching_world (some not_cached))) { flags = compat ∷ [] });
  flags = compat ∷ [];
}

has_flag-process_options_example :
    (has_flag compat (compat ∷ []) ≡ requested compat_options compat)
    × (compat_processed.compiler.flags ≡ compat_processed.flags)
    × (flags_of compat_processed.vm compat_processed.flags ≡ compat_processed.flags)
unfolding process_options
has_flag-process_options_example =
    has_flag-process_options (new_compiler test_library)
      (some (new_vm (with_cache caching_world (some not_cached)))) compat_options compat
      compat_processed refl

abbrev no_vm : Option Vm
no_vm = none

abbrev parse_error : LibError
parse_error = record { num = pos 2; message = lit "syntax error"; external = false }

-- A library that parses nothing.
abbrev refusing_library : Library Text Text
refusing_library = record test_library { parse = λ t flags. raises parse_error }

abbrev parse_exception : Exception
parse_exception = record {
  class_entry = compile_exception;
  message = lit "syntax error";
  code = pos 2;
}

abbrev compat_compiled : Compiled
compat_compiled = record {
  bytes = hi_module;
  vm = some (record (new_vm (with_cache caching_world (some not_cached))) { flags = compat ∷ [] });
}

render-forgets_example :
    ((render test_library
        (with_cache caching_world (some not_cached))
        input_type_string
        (lit "hi")
        none
        (some (Zval.array compat_options))).result
      ≡ execute test_library caching_world
          (record (new_vm (with_cache caching_world (some not_cached))) { flags = compat ∷ [] })
          hi_module
          none)
    × ((render test_library
          (with_cache caching_world (some not_cached))
          input_type_string
          (lit "hi")
          none
          (some (Zval.array compat_options))).trace
        ≡ added (lit "hi") hi_module ∷ [])
    × ((render test_library
          (with_cache caching_world (some always_hi))
          input_type_string
          (lit "hi")
          none
          (some (Zval.array compat_options))).result
        ≡ execute test_library caching_world
            (new_vm (with_cache caching_world (some always_hi)))
            hi_module
            none)
unfolding cache_id_of process_options compile fetch_known_helpers
render-forgets_example =
    render-forgets test_library caching_world (lit "hi") (lit "hi") none
      (some (Zval.array compat_options)) compat_processed compat_compiled not_cached always_hi refl
      refl refl refl refl
