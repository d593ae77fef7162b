-- ===== src/Vm/Render/Session.antt =====
-- Many calls of `render` of src/vm.c with one cache, whose content goes from call to call.
pub mod Saved
pub mod Uncached
use php_handlebars.Base.{◌≡◌, ◌⊎◌, Option, none, some, List, [], ◌∷◌, Text}
use php_handlebars.Zend.{Zval}
use php_handlebars.Zend.Outcome.{Outcome, ok}
use php_handlebars.Libhandlebars.{Library, Vm}
use php_handlebars.Value.{Value, no_fields}
use php_handlebars.Vm.Compile.{Compiled, compile}
use php_handlebars.Vm.Render.{
  CacheEvent, found, added, released, World, Rendered, input_type_string, render, new_vm,
}

-- The module that a call saved under an id.
abbrev pub Added : Text → Text → List CacheEvent → Type 0
Added id bytes [] = ⊥
Added id bytes (added j m ∷ t) = ((j ≡ id) × (m ≡ bytes)) ⊎ Added id bytes t
Added id bytes (found j m ∷ t) = Added id bytes t
Added id bytes (released j m ∷ t) = Added id bytes t

abbrev pub Saved : Text → Text → List (Text × Text) → Type 0
Saved id bytes [] = ⊥
Saved id bytes ((j, m) ∷ t) = ((j ≡ id) × (m ≡ bytes)) ⊎ Saved id bytes t

-- What the cache may be after a call: it may forget, but beside what the call saved in it and what the
-- run of the vm did it makes nothing up.
abbrev pub Follows : Rendered → (Text → Option Text) → (Text → Option Text) → Type 0
Follows r c c' =
    (id bytes : Text)
    → c' id ≡ some bytes
    → (c id ≡ some bytes) ⊎ (Added id bytes r.trace ⊎ Saved id bytes r.saved)

-- The vm of libhandlebars uses its cache for partials only: where it has none, a run neither depends on
-- the cache nor adds to it.
abbrev pub AsksForPartials : {Ast Program : Type 0} → Library Ast Program → Type 0
AsksForPartials l =
    (vm : Vm) (cache : Text → Option Text) (bytes : Text) (context : Value)
    → vm.partials ≡ Value.map no_fields
    → (l.execute (record vm { cache = some cache }) bytes context
        ≡ l.execute (record vm { cache = none }) bytes context)
      × (l.saves cache vm bytes context ≡ [])

abbrev pub with_cache : World → Option (Text → Option Text) → World
with_cache w cache = record w { cache_find = cache }

module _ {Ast Program : Type 0} (l : Library Ast Program) (w : World) where
  -- The method `render` on a template, without options, with a cache or without one.
  abbrev pub call : Option (Text → Option Text) → Text → Option Zval → Rendered
  call cache tmpl z_context = render l (with_cache w cache) input_type_string tmpl z_context none

  -- What compiling a template gives without a cache.
  abbrev pub made : Text → Outcome (Option Compiled)
  made tmpl =
      compile l (some (new_vm (with_cache w none))) tmpl (some (w.iterated w.intern.helpers)) none

  -- Under every id there is what compiling the id gives.
  abbrev pub IsTrue : (Text → Option Text) → Type 0
  IsTrue cache =
      (id bytes : Text)
      → cache id ≡ some bytes
      → made id ≡ ok (some (record { bytes = bytes; vm = some (new_vm (with_cache w none)) }))

  -- A sequence of calls, and what they return; the cache changes between them.
  pub data Session
      : (Text → Option Text)
        → List (Text × Option Zval)
        → List (Outcome (Option Text))
        → Type 0 where
    ended : {c : Text → Option Text} → Session c [] []
    calls :
        {c c' : Text → Option Text} {inputs : List (Text × Option Zval)}
        {results : List (Outcome (Option Text))} (tmpl : Text) (z_context : Option Zval)
        (result : Outcome (Option Text))
        → result ≡ (call (some c) tmpl z_context).result
        → Follows (call (some c) tmpl z_context) c c'
        → Session c' inputs results
        → Session c ((tmpl, z_context) ∷ inputs) (result ∷ results)
