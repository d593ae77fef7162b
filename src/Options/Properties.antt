-- ===== src/Options/Properties.antt =====
-- The property handlers of src/options.c: a property is filled in when it is first read.
pub mod Lazy
pub mod Construct
use php_handlebars.Base.{
  Bool, true, false, Option, none, some, [], ◌∷◌, Text, lit, text_eq, if◌then◌else◌,
}
use php_handlebars.Zend.{
  ℤ, pos, negsuc, Zval, Buckets, string, long, null, index, name, end, bucket,
}
use php_handlebars.Value.{Value}
use php_handlebars.Value.ToZval.{to_zval}
use php_handlebars.Options.{HandlebarsOptions, OptionsObj, StdHandlers}

-- The entries of `HandlebarsOptions_prop_handlers`
pub data PropHandler : Type 0 where
  read_name read_program read_inverse read_scope read_hash read_data : PropHandler

unfoldable pub prop_handler : Text → Option PropHandler
prop_handler member =
    if text_eq member (lit "name")
    then some read_name
    else if text_eq member (lit "program")
    then some read_program
    else if text_eq member (lit "inverse")
    then some read_inverse
    else if text_eq member (lit "scope")
    then some read_scope
    else if text_eq member (lit "hash")
    then some read_hash
    else if text_eq member (lit "data")
    then some read_data
    else none

module _ {P : Type 0} (h : StdHandlers P) where
  abbrev written : Text → Zval → OptionsObj P → OptionsObj P
  written member v obj = record obj { std = h.write_property member v obj.std }

  unfoldable pub hbs_read_name : Text → OptionsObj P → OptionsObj P
  hbs_read_name member obj = elim obj.options.name [
    | none ↦ obj
    | some s ↦ record (written member (string s) obj) {
      options = record obj.options { name = none };
    }
  ]

  -- A guid that is not negative is written at each reading.
  unfoldable pub write_guid : Text → ℤ → OptionsObj P → OptionsObj P
  write_guid member (pos n) obj = written member (long (pos n)) obj
  write_guid member (negsuc n) obj = obj

  unfoldable pub hbs_read_program : Text → OptionsObj P → OptionsObj P
  unfolding write_guid
  hbs_read_program member obj = write_guid member obj.options.program obj

  unfoldable pub hbs_read_inverse : Text → OptionsObj P → OptionsObj P
  unfolding write_guid
  hbs_read_inverse member obj = write_guid member obj.options.inverse obj

  unfoldable pub hbs_read_scope : Text → OptionsObj P → OptionsObj P
  hbs_read_scope member obj = elim obj.options.scope [
    | none ↦ obj
    | some v ↦ record (written member (to_zval v) obj) {
      options = record obj.options { scope = none };
    }
  ]

  unfoldable pub hbs_read_hash : Text → OptionsObj P → OptionsObj P
  hbs_read_hash member obj = elim obj.options.hash [
    | none ↦ obj
    | some v ↦ record (written member (to_zval v) obj) {
      options = record obj.options { hash = none };
    }
  ]

  unfoldable pub hbs_read_data : Text → OptionsObj P → OptionsObj P
  hbs_read_data member obj = elim obj.options.data_value [
    | none ↦ obj
    | some v ↦ record (written member (to_zval v) obj) {
      options = record obj.options { data_value = none };
    }
  ]

  unfoldable pub run_handler : PropHandler → Text → OptionsObj P → OptionsObj P
  unfolding hbs_read_name hbs_read_program hbs_read_inverse hbs_read_scope hbs_read_hash
      hbs_read_data
  run_handler read_name member obj = hbs_read_name member obj
  run_handler read_program member obj = hbs_read_program member obj
  run_handler read_inverse member obj = hbs_read_inverse member obj
  run_handler read_scope member obj = hbs_read_scope member obj
  run_handler read_hash member obj = hbs_read_hash member obj
  run_handler read_data member obj = hbs_read_data member obj

  -- What the handler leaves behind; all of them end with the standard handler's reading.
  unfoldable pub filled : Text → OptionsObj P → OptionsObj P
  unfolding prop_handler run_handler
  filled member obj = elim (prop_handler member) [
    | none ↦ obj
    | some hnd ↦ run_handler hnd member obj
  ]

  unfoldable pub object_read_property : Text → OptionsObj P → Zval × OptionsObj P
  unfolding filled
  object_read_property member obj =
      let obj' = filled member obj in (h.read_property member obj'.std, obj')

  unfoldable pub object_has_property : Text → Bool → OptionsObj P → Bool × OptionsObj P
  unfolding object_read_property
  object_has_property member check_empty obj =
      let (read, obj') = object_read_property member obj in
      (h.has_property member check_empty obj'.std, obj')

  -- `ZEND_HASH_FOREACH_KEY_VAL`: entries under integers are passed over.
  unfoldable pub update_properties : Buckets → P → P
  update_properties end p = p
  update_properties (bucket (index n) entry b) p = update_properties b p
  update_properties (bucket (name key) entry b) p =
      update_properties b (h.write_property key entry p)

  -- `__construct`, with its array, if it is given one
  unfoldable pub construct : Option Buckets → OptionsObj P → OptionsObj P
  unfolding update_properties
  construct props obj =
      let cleared =
        h.write_property (lit "inverse") null (h.write_property (lit "fn") null obj.std) in
      record obj { std = elim props [ none ↦ cleared | some b ↦ update_properties b cleared ] }
