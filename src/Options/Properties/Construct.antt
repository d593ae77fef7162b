-- ===== src/Options/Properties/Construct.antt =====
-- `Handlebars\Options::__construct` of src/options.c sets the properties that its array names.
use php_handlebars.Base.{
  ◌≡◌, ◌≢◌, refl, ap, ◌∙◌, true, false, Bool-cases, inl, inr, Option, none, some, Text, lit,
  text_eq, text_eq_iff, text_eq_sound, arith, if◌then◌else◌,
}
use php_handlebars.Zend.{Zval, Buckets, index, name, end, bucket, null}
use php_handlebars.Zend.Hash.{find}
use php_handlebars.Options.{OptionsObj, StdHandlers, IsStandard, is_plain}
use php_handlebars.Options.Properties.{update_properties, construct}

-- No key stands in the array twice, and no name is mangled.
abbrev pub IsArray : Buckets → Type 0
IsArray end = Unit
IsArray (bucket (index n) v b) = IsArray b
IsArray (bucket (name k) v b) = (find (name k) b ≡ none) × (is_plain k ≡ true) × IsArray b

abbrev pub or_else_stored : Option Zval → Zval → Zval
or_else_stored none v = v
or_else_stored (some w) v = w

module _ {P : Type 0} (h : StdHandlers P) where
  read-update_properties :
      (b : Buckets) (k : Text) (p : P)
      → IsStandard h
      → IsArray b
      → h.read_property k (update_properties h b p)
        ≡ or_else_stored (find (name k) b) (h.read_property k p)
  unfolding update_properties
  read-update_properties end k p s d = refl
  read-update_properties (bucket (index n) v b) k p s d = read-update_properties b k p s d
  read-update_properties (bucket (name j) v b) k p s d = elim (Bool-cases (text_eq j k)) [
    | inl same ↦ ground (
      arith,
      same,
      text_eq_sound j k same,
      d.0,
      read-update_properties b k (h.write_property j v p) s d.2,
      s.read-write j v p d.1,
    )
    | inr differs ↦ ground (
      arith,
      differs,
      read-update_properties b k (h.write_property j v p) s d.2,
      s.read-write_other k j v p (apart differs),
    )
  ]
    where
      apart : text_eq j k ≡ false → k ≢ j
      apart differs e = ground (arith, text_eq_iff j k)

  abbrev cleared : P → P
  cleared p = h.write_property (lit "inverse") null (h.write_property (lit "fn") null p)

  -- A property before the array is read.
  abbrev pub cleared_value : Text → Zval → Zval
  cleared_value k v =
      if text_eq k (lit "fn") then null else if text_eq k (lit "inverse") then null else v

  read-cleared :
      (k : Text) (p : P)
      → IsStandard h
      → h.read_property k (cleared p) ≡ cleared_value k (h.read_property k p)
  read-cleared k p s = ground (
    arith,
    text_eq_iff k (lit "fn"),
    text_eq_iff k (lit "inverse"),
    s.read-write (lit "fn") null p refl,
    s.read-write (lit "inverse") null (h.write_property (lit "fn") null p) refl,
    s.read-write_other k (lit "fn") null p,
    s.read-write_other k (lit "inverse") null (h.write_property (lit "fn") null p),
  )

  -- After the constructor, with standard handlers and an array of distinct names none of which is
  -- mangled, a property is what the array has under its name; `fn` and `inverse` are null where the
  -- array has none, and every other property is then as it was.
  pub read-construct :
      (b : Buckets) (k : Text) (obj : OptionsObj P)
      → IsStandard h
      → IsArray b
      → h.read_property k (construct h (some b) obj).std
        ≡ or_else_stored (find (name k) b) (cleared_value k (h.read_property k obj.std))
  unfolding construct
  read-construct b k obj s d =
      read-update_properties b k (cleared obj.std) s d
      ∙ ap (or_else_stored (find (name k) b)) (read-cleared k obj.std s)
