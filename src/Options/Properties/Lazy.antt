-- ===== src/Options/Properties/Lazy.antt =====
-- What reading the properties of a `Handlebars\Options` object shows.
use php_handlebars.Base.{
  ◌≡◌, ◌≢◌, ◌⊎◌, true, false, Option, none, some, Text, lit, text_eq, text_eq_sound, text_eq_iff,
  arith, Option-cases, inl, inr, Bool-cases,
}
use php_handlebars.Zend.{ℤ, pos, negsuc, Zval, long, string}
use php_handlebars.Value.{Value}
use php_handlebars.Value.ToZval.{to_zval}
use php_handlebars.Options.{HandlebarsOptions, OptionsObj, StdHandlers, IsStandard, is_plain}
use php_handlebars.Options.Properties.{
  PropHandler, read_name, read_program, read_inverse, read_scope, read_hash, read_data,
  prop_handler, run_handler, filled, object_read_property,
}

abbrev guid : ℤ → Option Zval
guid (pos n) = some (long (pos n))
guid (negsuc n) = none

abbrev converted : Option Value → Option Zval
converted none = none
converted (some v) = some (to_zval v)

abbrev text_of : Option Text → Option Zval
text_of none = none
text_of (some s) = some (string s)

-- What a property still waits for.
abbrev pub pending : PropHandler → HandlebarsOptions → Option Zval
pending read_name o = text_of o.name
pending read_program o = guid o.program
pending read_inverse o = guid o.inverse
pending read_scope o = converted o.scope
pending read_hash o = converted o.hash
pending read_data o = converted o.data_value

abbrev pub pending_at : Text → HandlebarsOptions → Option Zval
pending_at member o = elim (prop_handler member) [ none ↦ none | some hnd ↦ pending hnd o ]

abbrev pub or_stored : Option Zval → Zval → Zval
or_stored none v = v
or_stored (some w) v = w

module _ {P : Type 0} (h : StdHandlers P) where
  -- What a program sees in a property.
  abbrev pub visible : Text → OptionsObj P → Zval
  visible member obj = or_stored (pending_at member obj.options) (h.read_property member obj.std)

  -- A handler writes what is waiting into the property that it is called for.
  handler_writes :
      (hnd : PropHandler) (member : Text) (obj : OptionsObj P)
      → (run_handler h hnd member obj).std ≡ (elim (pending hnd obj.options) [
        | none ↦ obj.std
        | some v ↦ h.write_property member v obj.std
      ])
  unfolding run_handler
  handler_writes read_name member obj = ground arith
  handler_writes read_program member obj = ground arith
  handler_writes read_inverse member obj = ground arith
  handler_writes read_scope member obj = ground arith
  handler_writes read_hash member obj = ground arith
  handler_writes read_data member obj = ground arith

  -- It clears at most the field that it is for.
  pending_after :
      (hnd other : PropHandler) (member : Text) (obj : OptionsObj P)
      → (pending other (run_handler h hnd member obj).options ≡ pending other obj.options)
        ⊎ (hnd ≡ other)
  unfolding run_handler
  pending_after read_name other member obj = ground arith
  pending_after read_program other member obj = ground arith
  pending_after read_inverse other member obj = ground arith
  pending_after read_scope other member obj = ground arith
  pending_after read_hash other member obj = ground arith
  pending_after read_data other member obj = ground arith

  pending_own :
      (hnd : PropHandler) (member : Text) (obj : OptionsObj P)
      → (pending hnd (run_handler h hnd member obj).options ≡ pending hnd obj.options)
        ⊎ (pending hnd (run_handler h hnd member obj).options ≡ none)
  unfolding run_handler
  pending_own read_name member obj = ground arith
  pending_own read_program member obj = ground arith
  pending_own read_inverse member obj = ground arith
  pending_own read_scope member obj = ground arith
  pending_own read_hash member obj = ground arith
  pending_own read_data member obj = ground arith

  -- The names are those of the table.
  handler_name : PropHandler → Text
  handler_name read_name = lit "name"
  handler_name read_program = lit "program"
  handler_name read_inverse = lit "inverse"
  handler_name read_scope = lit "scope"
  handler_name read_hash = lit "hash"
  handler_name read_data = lit "data"

  prop_handler-name :
      (member : Text) (hnd : PropHandler)
      → prop_handler member ≡ some hnd
      → member ≡ handler_name hnd
  unfolding prop_handler handler_name
  prop_handler-name member hnd e = ground (
    arith,
    text_eq_iff member (lit "name"),
    text_eq_iff member (lit "program"),
    text_eq_iff member (lit "inverse"),
    text_eq_iff member (lit "scope"),
    text_eq_iff member (lit "hash"),
    text_eq_iff member (lit "data"),
  )

  stored_after :
      (hnd : PropHandler) (member : Text) (obj : OptionsObj P)
      → IsStandard h
      → is_plain member ≡ true
      → h.read_property member (run_handler h hnd member obj).std
        ≡ or_stored (pending hnd obj.options) (h.read_property member obj.std)
  stored_after hnd member obj s plain = ground (
    arith,
    handler_writes hnd member obj,
    s.read-write member (pending_value hnd obj) obj.std plain,
  )
    where
      pending_value : PropHandler → OptionsObj P → Zval
      pending_value hnd obj = or_stored (pending hnd obj.options) Zval.null

  stored_other :
      (hnd : PropHandler) (j member : Text) (obj : OptionsObj P)
      → IsStandard h
      → j ≢ member
      → h.read_property j (run_handler h hnd member obj).std ≡ h.read_property j obj.std
  stored_other hnd j member obj s other = elim (Option-cases (pending hnd obj.options)) [
    | inl e ↦ ground (arith, handler_writes hnd member obj, e)
    | inr (v, e) ↦
        ground
          (arith, handler_writes hnd member obj, e, s.read-write_other j member v obj.std other)
  ]

  -- Reading a property, with standard handlers and a name that is not mangled, gives what is waiting
  -- for it, if anything is, and what is stored otherwise.
  pub object_read_property-visible :
      (member : Text) (obj : OptionsObj P)
      → IsStandard h
      → is_plain member ≡ true
      → (object_read_property h member obj).0 ≡ visible member obj
  unfolding object_read_property filled
  object_read_property-visible member obj s plain = elim (Option-cases (prop_handler member)) [
    | inl e ↦ ground (arith, e)
    | inr (hnd, e) ↦ ground (arith, e, stored_after hnd member obj s plain)
  ]

  visible-same :
      (hnd : PropHandler) (member : Text) (obj : OptionsObj P)
      → IsStandard h
      → is_plain member ≡ true
      → prop_handler member ≡ some hnd
      → visible member (run_handler h hnd member obj) ≡ visible member obj
  visible-same hnd member obj s plain e =
      ground (arith, e, stored_after hnd member obj s plain, pending_own hnd member obj)

  visible-other :
      (hnd : PropHandler) (j member : Text) (obj : OptionsObj P)
      → IsStandard h
      → j ≢ member
      → prop_handler member ≡ some hnd
      → visible j (run_handler h hnd member obj) ≡ visible j obj
  visible-other hnd j member obj s other e = elim (Option-cases (prop_handler j)) [
    | inl f ↦ ground (arith, f, stored_other hnd j member obj s other)
    | inr (hnd', f) ↦ ground (
      arith,
      f,
      stored_other hnd j member obj s other,
      pending_after hnd hnd' member obj,
      prop_handler-name member hnd e,
      prop_handler-name j hnd' f,
    )
  ]

  -- To read one property, by standard handlers and a name that is not mangled, leaves what reading
  -- any property gives as it is.
  pub visible-object_read_property :
      (j member : Text) (obj : OptionsObj P)
      → IsStandard h
      → is_plain member ≡ true
      → visible j (object_read_property h member obj).1 ≡ visible j obj
  unfolding object_read_property filled
  visible-object_read_property j member obj s plain = elim (Option-cases (prop_handler member)) [
    | inl e ↦ ground (arith, e)
    | inr (hnd, e) ↦ elim (Bool-cases (text_eq j member)) [
      | inl same ↦
          ground (arith, e, text_eq_sound j member same, visible-same hnd member obj s plain e)
      | inr differs ↦ ground (arith, e, visible-other hnd j member obj s (apart j member differs) e)
    ]
  ]
    where
      apart : (s t : Text) → text_eq s t ≡ false → s ≢ t
      apart s t d e = ground (arith, text_eq_iff s t)
