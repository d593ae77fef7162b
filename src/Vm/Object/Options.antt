-- ===== src/Vm/Object/Options.antt =====
-- The options that the constructor of `Handlebars\VM` in src/vm.c takes.
use php_handlebars.Base.{
  ◌≡◌, ◌∙◌, ap, sym, refl, inl, inr, Option, none, some, List, [], ◌∷◌, ◌++◌, Text, lit, arith,
  Option-cases,
}
use php_handlebars.Zend.{Zval, Buckets, name}
use php_handlebars.Zend.Hash.{find}
use php_handlebars.Zend.Outcome.{Exception}
use php_handlebars.Libhandlebars.{LibResult-cases}
use php_handlebars.Value.{Value}
use php_handlebars.Value.FromZval.{from_zval}
use php_handlebars.Implementation.{
  Impl, Property, update_property, read_property, logger_property, decorators_property,
  helpers_property, partials_property, get_helpers, get_partials, get_decorators, get_logger,
}
use php_handlebars.Vm.Object.{
  VmObj, Called, store_helpers, vm_set_helpers, store_partials, vm_set_partials, try_in, clear_jmp,
  vm_update_property, with_option, vm_construct,
}
use php_handlebars.Vm.Object.Kept.{from_zval-thrown}

-- The option, or what was there before.
abbrev pub option_or : Option Zval → Zval → Zval
option_or none old = old
option_or (some v) old = v

-- A step that writes its option into the property, unless it throws.
abbrev Writes : Property → (Zval → VmObj → Called) → Type 0
Writes p step =
    (v : Zval) (obj : VmObj)
    → (step v obj).exceptions ≡ []
    → (step v obj).obj.std ≡ update_property p v obj.std

set_helpers-Writes : (dtor : Value → Value) → Writes helpers_property (vm_set_helpers dtor)
unfolding vm_set_helpers store_helpers try_in clear_jmp
set_helpers-Writes dtor v obj h = elim (LibResult-cases (from_zval v (dtor obj.helpers))) [
  | inl (w, e) ↦ rw (store_helpers, e) refl
  | inr (x, e) ↦ ground (arith, from_zval-thrown v (dtor obj.helpers) x e)
]

set_partials-Writes : (dtor : Value → Value) → Writes partials_property (vm_set_partials dtor)
unfolding vm_set_partials store_partials try_in clear_jmp
set_partials-Writes dtor v obj h = elim (LibResult-cases (from_zval v (dtor obj.partials))) [
  | inl (w, e) ↦ rw (store_partials, e) refl
  | inr (x, e) ↦ ground (arith, from_zval-thrown v (dtor obj.partials) x e)
]

update_property-Writes : (p : Property) → Writes p (vm_update_property p)
unfolding vm_update_property
update_property-Writes p v obj h = refl

append-empty : (xs ys : List Exception) → xs ++ ys ≡ [] → (xs ≡ []) × (ys ≡ [])
append-empty [] ys h = (refl, h)
append-empty (x ∷ xs) ys h = ground arith

update-read : (p : Property) (this : Impl) → update_property p (read_property p this) this ≡ this
unfolding update_property read_property
update-read logger_property this = refl
update-read decorators_property this = refl
update-read helpers_property this = refl
update-read partials_property this = refl

-- What a step of the constructor leaves, if nothing was thrown.
with_option-Writes :
    (p : Property) (key : Text) (step : Zval → VmObj → Called) (ht : Buckets) (c : Called)
    → Writes p step
    → (with_option key step ht c).exceptions ≡ []
    → (c.exceptions ≡ [])
      × ((with_option key step ht c).obj.std
          ≡ update_property p
              (option_or (find (name key) ht) (read_property p c.obj.std))
              c.obj.std)
unfolding with_option
with_option-Writes p key step ht c writes h = elim (Option-cases (find (name key) ht)) [
  | inl e ↦ (ground (arith, e), rw (with_option, e) (sym (update-read p c.obj.std)))
  | inr (v, e) ↦
      let (before, now) = append-empty c.exceptions (step v c.obj).exceptions (ground (arith, e)) in
      (before, rw (with_option, e) (writes v c.obj now))
]

-- A constructor that throws nothing leaves every option that it is given in its property, where the
-- getters find it, and the properties without an option as they were.
pub get-construct :
    (dtor : Value → Value) (ht : Buckets) (obj : VmObj)
    → (vm_construct dtor (some (Zval.array ht)) obj).exceptions ≡ []
    → (get_helpers (vm_construct dtor (some (Zval.array ht)) obj).obj.std
        ≡ option_or (find (name (lit "helpers")) ht) (get_helpers obj.std))
      × (get_partials (vm_construct dtor (some (Zval.array ht)) obj).obj.std
          ≡ option_or (find (name (lit "partials")) ht) (get_partials obj.std))
      × (get_decorators (vm_construct dtor (some (Zval.array ht)) obj).obj.std
          ≡ option_or (find (name (lit "decorators")) ht) (get_decorators obj.std))
      × (get_logger (vm_construct dtor (some (Zval.array ht)) obj).obj.std
          ≡ option_or (find (name (lit "logger")) ht) (get_logger obj.std))
unfolding vm_construct update_property get_helpers get_partials get_decorators get_logger
get-construct dtor ht obj h =
    let c0 : Called = record { obj = obj; exceptions = [] } in
    let c1 = with_option (lit "helpers") (vm_set_helpers dtor) ht c0 in
    let c2 = with_option (lit "partials") (vm_set_partials dtor) ht c1 in
    let c3 = with_option (lit "decorators") (vm_update_property decorators_property) ht c2 in
    let (e3, w4) =
      with_option-Writes logger_property (lit "logger") (vm_update_property logger_property) ht c3
        (update_property-Writes logger_property) h in
    let (e2, w3) =
      with_option-Writes decorators_property (lit "decorators")
        (vm_update_property decorators_property) ht c2 (update_property-Writes decorators_property)
        e3 in
    let (e1, w2) =
      with_option-Writes partials_property (lit "partials") (vm_set_partials dtor) ht c1
        (set_partials-Writes dtor) e2 in
    let (e0, w1) =
      with_option-Writes helpers_property (lit "helpers") (vm_set_helpers dtor) ht c0
        (set_helpers-Writes dtor) e1 in
    (
      ap get_helpers w4 ∙ ap get_helpers w3 ∙ ap get_helpers w2 ∙ ap get_helpers w1,
      ap get_partials w4
          ∙ ap get_partials w3
          ∙ ap get_partials w2
          ∙ ap (λ s. option_or (find (name (lit "partials")) ht) (get_partials s)) w1,
      ap get_decorators w4
          ∙ ap get_decorators w3
          ∙ ap (λ s. option_or (find (name (lit "decorators")) ht) (get_decorators s)) w2
          ∙ ap (λ s. option_or (find (name (lit "decorators")) ht) (get_decorators s)) w1,
      ap get_logger w4
          ∙ ap (λ s. option_or (find (name (lit "logger")) ht) (get_logger s)) w3
          ∙ ap (λ s. option_or (find (name (lit "logger")) ht) (get_logger s)) w2
          ∙ ap (λ s. option_or (find (name (lit "logger")) ht) (get_logger s)) w1,
    )
