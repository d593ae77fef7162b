-- ===== src/Vm/Render/Trace.antt =====
-- What a run of `render` of src/vm.c says to the template cache, counted.
use php_handlebars.Base.{
  ℕ, suc, ◌+◌, ◌≡◌, ◌≢◌, ◌∙◌, Bool, true, false, Option, some, List, [], ◌∷◌, ◌++◌, Text, arith,
}
use php_handlebars.Zend.Outcome.{aborted}
use php_handlebars.Vm.Render.{CacheEvent, found, added, released, Rendered, finish}

abbrev pub founds : List CacheEvent → ℕ
founds [] = 0
founds (found id m ∷ t) = suc (founds t)
founds (added id m ∷ t) = founds t
founds (released id m ∷ t) = founds t

abbrev pub releases : List CacheEvent → ℕ
releases [] = 0
releases (found id m ∷ t) = releases t
releases (added id m ∷ t) = releases t
releases (released id m ∷ t) = suc (releases t)

-- Every module that was found is released as often as it was found.
abbrev pub IsBalanced : Rendered → Type 0
IsBalanced r = releases r.trace ≡ founds r.trace

pub founds-append : (s t : List CacheEvent) → founds (s ++ t) ≡ founds s + founds t
founds-append [] t = omega arith
founds-append (found id m ∷ s) t = omega (arith, founds-append s t)
founds-append (added id m ∷ s) t = founds-append s t
founds-append (released id m ∷ s) t = founds-append s t

pub releases-append : (s t : List CacheEvent) → releases (s ++ t) ≡ releases s + releases t
releases-append [] t = omega arith
releases-append (found id m ∷ s) t = releases-append s t
releases-append (added id m ∷ s) t = releases-append s t
releases-append (released id m ∷ s) t = omega (arith, releases-append s t)

pub finish-released :
    (id : Text) (r : Rendered)
    → r.result ≢ aborted
    → finish true (some id) r ≡ record r { trace = r.trace ++ released id r.bytes ∷ [] }
unfolding finish
finish-released id r h = ground arith

pub finish-kept : (id : Option Text) (r : Rendered) → finish false id r ≡ r
unfolding finish
finish-kept id r = ground arith

pub result-finish :
    (from_cache : Bool) (id : Option Text) (r : Rendered)
    → (finish from_cache id r).result ≡ r.result
unfolding finish
result-finish from_cache id r = ground arith

-- A run that comes to `done` with a module from the cache releases once more.
pub finish-counts :
    (id : Text) (r : Rendered)
    → (finish true (some id) r).result ≢ aborted
    → (founds (finish true (some id) r).trace ≡ founds r.trace)
      × (releases (finish true (some id) r).trace ≡ releases r.trace + 1)
finish-counts id r h =
    let ended : r.result ≢ aborted = λ e. h (result-finish true (some id) r ∙ e) in
    rw (finish-released id r ended) (
      omega (arith, founds-append r.trace (released id r.bytes ∷ [])),
      omega (arith, releases-append r.trace (released id r.bytes ∷ [])),
    )
