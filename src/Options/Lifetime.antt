-- ===== src/Options/Lifetime.antt =====
-- The life of a `Handlebars\Options` object of src/options.c: made by the vm, and left when it is freed.
use php_handlebars.Base.{ℕ, ◌≡◌, ◌≢◌, ◌<◌, refl, Option, none, some, lit, arith, is_some}
use php_handlebars.Zend.{pos, long}
use php_handlebars.Value.{Value}
use php_handlebars.Options.{
  HandlebarsOptions, OptionsObj, StdHandlers, IsStandard, place, options_ctor,
  options_dtor_ctx_dtor,
}
use php_handlebars.Options.Properties.{object_read_property, prop_handler}
use php_handlebars.Options.Properties.Lazy.{object_read_property-visible}

-- The place is one of the three that are allocated.
abbrev pub IsInside : Option ℕ → Type 0
IsInside none = Unit
IsInside (some i) = i < 3

abbrev pub AreApart : Option ℕ → Option ℕ → Type 0
AreApart (some i) (some j) = i ≢ j
AreApart _ _ = Unit

-- The places of three values, one behind the other.
places :
    (s d h : Option Value)
    → let (scope_at, after_scope) = place 0 s in
      let (data_at, after_data) = place after_scope d in
      let (hash_at, after_hash) = place after_data h in
      (IsInside scope_at × IsInside data_at × IsInside hash_at)
      × (AreApart scope_at data_at × AreApart scope_at hash_at × AreApart data_at hash_at)
      × ((is_some scope_at ≡ is_some s)
          × (is_some data_at ≡ is_some d)
          × (is_some hash_at ≡ is_some h))
places none none none = ((tt, tt, tt), (tt, tt, tt), (refl, refl, refl))
places none none (some h) = ((tt, tt, omega arith), (tt, tt, tt), (refl, refl, refl))
places none (some d) none = ((tt, omega arith, tt), (tt, tt, tt), (refl, refl, refl))
places none (some d) (some h) =
    ((tt, omega arith, omega arith), (tt, tt, omega arith), (refl, refl, refl))
places (some s) none none = ((omega arith, tt, tt), (tt, tt, tt), (refl, refl, refl))
places (some s) none (some h) =
    ((omega arith, tt, omega arith), (tt, omega arith, tt), (refl, refl, refl))
places (some s) (some d) none =
    ((omega arith, omega arith, tt), (omega arith, tt, tt), (refl, refl, refl))
places (some s) (some d) (some h) = (
  (omega arith, omega arith, omega arith),
  (omega arith, omega arith, omega arith),
  (refl, refl, refl),
)

module _ {P : Type 0} where
  -- The constructor puts the values that there are into the memory that it has allocated, no two of
  -- them into one place, and none for a value that there is not.
  pub options_ctor-IsInside :
      (options : HandlebarsOptions) (p : P)
      → let slots = (options_ctor options p).1 in
        (IsInside slots.scope_at × IsInside slots.data_at × IsInside slots.hash_at)
        × (AreApart slots.scope_at slots.data_at
            × AreApart slots.scope_at slots.hash_at
            × AreApart slots.data_at slots.hash_at)
        × ((is_some slots.scope_at ≡ is_some options.scope)
            × (is_some slots.data_at ≡ is_some options.data_value)
            × (is_some slots.hash_at ≡ is_some options.hash))
  unfolding options_ctor
  options_ctor-IsInside options p = places options.scope options.data_value options.hash

  -- Once the vm is freed, `program` and `inverse` read as the number 0, whatever they were.
  pub read-options_dtor_ctx_dtor :
      (h : StdHandlers P) (obj : OptionsObj P)
      → IsStandard h
      → ((object_read_property h (lit "program") (options_dtor_ctx_dtor obj)).0 ≡ long (pos 0))
        × ((object_read_property h (lit "inverse") (options_dtor_ctx_dtor obj)).0 ≡ long (pos 0))
  unfolding options_dtor_ctx_dtor prop_handler
  read-options_dtor_ctx_dtor h obj s = (
    object_read_property-visible h (lit "program") (options_dtor_ctx_dtor obj) s refl,
    object_read_property-visible h (lit "inverse") (options_dtor_ctx_dtor obj) s refl,
  )

  -- The property `fn` of an object made by the vm reads as what the engine has stored in it, whatever
  -- program the options have.
  pub read-options_ctor_fn :
      (h : StdHandlers P) (options : HandlebarsOptions) (p : P)
      → IsStandard h
      → (object_read_property h (lit "fn") (options_ctor options p).0).0
        ≡ h.read_property (lit "fn") p
  unfolding options_ctor prop_handler
  read-options_ctor_fn h options p s =
      object_read_property-visible h (lit "fn") (options_ctor options p).0 s refl
