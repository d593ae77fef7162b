-- ===== src/Vm/Render/Files.antt =====
-- The method `renderFile` of src/vm.c with one cache, while the files change.
pub mod Calls
pub mod Coherent
use php_handlebars.Base.{◌≡◌, ◌⊎◌, true, Option, none, some, List, [], ◌∷◌, Text}
use php_handlebars.Zend.{ℤ, Zval}
use php_handlebars.Zend.Outcome.{Outcome, ok}
use php_handlebars.Libhandlebars.{Library}
use php_handlebars.Vm.Compile.{Compiled}
use php_handlebars.Vm.Render.{
  World, Rendered, input_type_filename, make_module, greater, new_vm, render,
}
use php_handlebars.Vm.Render.Session.{Follows, with_cache}

-- Other contents and other times of the files.
abbrev pub with_files : World → (Text → Option (Option Text)) → (Text → ℤ) → World
with_files w open_stream mtime = record w { open_stream = open_stream; mtime = mtime }

module _ {Ast Program : Type 0} (l : Library Ast Program) where
  -- `renderFile` without options, with a cache or without one.
  abbrev pub file_call : World → Option (Text → Option Text) → Text → Option Zval → Rendered
  file_call w cache file z_context =
      render l (with_cache w cache) input_type_filename file z_context none

  -- What reading and compiling a file gives without a cache.
  abbrev pub made_file : World → Text → Outcome (Option Compiled)
  made_file w file = make_module l (with_cache w none) input_type_filename file none

  -- The file was written after its module was made.
  abbrev pub IsOutdated : World → Text → Text → Type 0
  IsOutdated w file bytes = greater (w.mtime file) (l.get_ts bytes) ≡ true

  -- Under every file's name there is an outdated module, or what reading and compiling the file gives.
  abbrev pub IsCoherent : World → (Text → Option Text) → Type 0
  IsCoherent w cache =
      (file bytes : Text)
      → cache file ≡ some bytes
      → IsOutdated w file bytes
        ⊎ (made_file w file
            ≡ ok (some (record { bytes = bytes; vm = some (new_vm (with_cache w none)) })))

  -- Calls and changes of files in any order; the results of the calls, and what they would be at that
  -- time without a cache. A file that changes gets a time after those of the modules in the cache.
  pub data History
      : World
        → (Text → Option Text)
        → List (Outcome (Option Text))
        → List (Outcome (Option Text))
        → Type 0 where
    ended : {w : World} {c : Text → Option Text} → History w c [] []
    calls :
        {w : World} {c c' : Text → Option Text} {results direct : List (Outcome (Option Text))}
        (file : Text) (z_context : Option Zval) (result uncached : Outcome (Option Text))
        → result ≡ (file_call w (some c) file z_context).result
        → uncached ≡ (file_call w none file z_context).result
        → Follows (file_call w (some c) file z_context) c c'
        → History w c' results direct
        → History w c (result ∷ results) (uncached ∷ direct)
    edits :
        {w : World} {c : Text → Option Text} {results direct : List (Outcome (Option Text))}
        (open_stream : Text → Option (Option Text)) (mtime : Text → ℤ)
        → ((file bytes : Text)
            → c file ≡ some bytes
            → ((open_stream file ≡ w.open_stream file) × (mtime file ≡ w.mtime file))
              ⊎ IsOutdated (with_files w open_stream mtime) file bytes)
        → History (with_files w open_stream mtime) c results direct
        → History w c results direct
