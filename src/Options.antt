-- ===== src/Options.antt =====
-- src/options.c: the object that a helper is given, `Handlebars\Options`, as built for PHP 8.
pub mod Declared
pub mod Properties
pub mod Call
pub mod Lifetime
pub mod ArrayAccess
use php_handlebars.Base.{
  ℕ, ◌+◌, ◌≡◌, ◌≢◌, Bool, true, false, not, Option, none, some, [], ◌∷◌, Text, ◌==◌, if◌then◌else◌,
}
use php_handlebars.Zend.{ℤ, pos, negsuc, Zval}
use php_handlebars.Value.{Value}

-- `struct handlebars_options`, as far as the object reads it.
pub record HandlebarsOptions : Type 0 where
  pub name : Option Text
  pub program : ℤ
  pub inverse : ℤ
  pub scope : Option Value
  pub data_value : Option Value
  pub hash : Option Value

-- Where the three values lie in the block that the constructor allocates, counted in values.
pub record Slots : Type 0 where
  pub scope_at : Option ℕ
  pub data_at : Option ℕ
  pub hash_at : Option ℕ

-- `struct php_handlebars_options_obj`. The object's properties are of the engine's own type `P`; `vm`
-- and `dtor_ctx` say whether the pointers are set.
pub record OptionsObj (P : Type 0) : Type 0 where
  pub options : HandlebarsOptions
  pub vm : Bool
  pub dtor_ctx : Bool
  pub std : P

-- The standard handlers of the engine, `std_hnd`, on the properties of an object.
pub record StdHandlers (P : Type 0) : Type 0 where
  pub read_property : Text → P → Zval
  pub write_property : Text → Zval → P → P
  pub has_property : Text → Bool → P → Bool

-- A name that is not mangled: its first byte is not zero.
abbrev pub is_plain : Text → Bool
is_plain [] = true
is_plain (c ∷ t) = not (c == 0)

-- What a property is set to is what is read back, and other properties stay.
pub record IsStandard {P : Type 0} (h : StdHandlers P) : Type 0 where
  pub read-write :
      (k : Text) (v : Zval) (p : P)
      → is_plain k ≡ true
      → h.read_property k (h.write_property k v p) ≡ v
  pub read-write_other :
      (j k : Text) (v : Zval) (p : P)
      → j ≢ k
      → h.read_property j (h.write_property k v p) ≡ h.read_property j p

-- The zeroes of `ecalloc`, and no program.
abbrev pub no_options : HandlebarsOptions
no_options = record {
  name = none;
  program = negsuc 0;
  inverse = negsuc 0;
  scope = none;
  data_value = none;
  hash = none;
}

-- The zeroes of `memset`
abbrev pub zero_options : HandlebarsOptions
zero_options = record {
  name = none;
  program = pos 0;
  inverse = pos 0;
  scope = none;
  data_value = none;
  hash = none;
}

abbrev pub place : {A : Type 0} → ℕ → Option A → Option ℕ × ℕ
place mem none = (none, mem)
place mem (some a) = (some mem, mem + 1)

module _ {P : Type 0} where
  unfoldable pub obj_create : P → OptionsObj P
  obj_create p = record { options = no_options; vm = false; dtor_ctx = false; std = p }

  -- The object with its own copies of the strings and values, and where they lie.
  unfoldable pub options_ctor : HandlebarsOptions → P → OptionsObj P × Slots
  unfolding obj_create
  options_ctor options p =
      let (scope_at, after_scope) = place 0 options.scope in
      let (data_at, after_data) = place after_scope options.data_value in
      let (hash_at, after_hash) = place after_data options.hash in
      (
        record (obj_create p) { options = options; vm = true; dtor_ctx = true },
        record { scope_at = scope_at; data_at = data_at; hash_at = hash_at },
      )

  -- When the vm is freed
  unfoldable pub options_dtor_ctx_dtor : OptionsObj P → OptionsObj P
  options_dtor_ctx_dtor obj = record obj { options = zero_options; vm = false; dtor_ctx = false }

  -- `obj_free_common`: the object's own end. Freeing the block runs its destructor.
  unfoldable pub obj_free_common : OptionsObj P → OptionsObj P
  unfolding options_dtor_ctx_dtor
  obj_free_common obj =
      let dropped = record obj {
        options = record obj.options { hash = none; data_value = none; scope = none; name = none };
      } in
      if dropped.dtor_ctx then options_dtor_ctx_dtor dropped else dropped
