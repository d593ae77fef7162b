-- ===== src/Vm/Binary.antt =====
-- Precompiled templates in src/vm.c: what `Handlebars\VM::compile` puts in front of a module, and
-- `verify_and_load_module`.
pub mod Accepted
use php_handlebars.Base.{
  ℕ, ◌+◌, ◌-◌, Bool, true, false, not, [], ◌∷◌, ◌++◌, Text, lit, text_eq, length, take, drop, ◌==◌,
  leb, if◌then◌else◌,
}
use php_handlebars.Zend.Outcome.{
  Outcome, ok, throw, throw_exception, invalid_binary_string_exception,
}
use php_handlebars.Libhandlebars.{Library}
use php_handlebars.Vm.HashPack.{hash_len, hash_pack, hash_bin2hex}

module _ {Ast Program : Type 0} (l : Library Ast Program) where
  abbrev pub invalid : Text → Outcome Text
  invalid message =
      throw_exception invalid_binary_string_exception
        (lit "Failed to validate precompiled template: " ++ message)

  unfoldable pub hash_message : Text → Text → Text
  hash_message actual expected =
      lit "template hash was " ++ hash_bin2hex actual ++ lit ", expected " ++ hash_bin2hex expected

  unfoldable pub size_message : ℕ → ℕ → Text
  size_message size expected =
      lit "template data segment was "
      ++ l.print_number size
      ++ lit " bytes, expected "
      ++ l.print_number expected

  unfoldable pub version_message : ℕ → ℕ → Text
  version_message compiled current =
      lit "template was compiled with handlebars "
      ++ l.print_number compiled
      ++ lit ", current version is "
      ++ l.print_number current

  unfoldable pub verify_and_load_module : Text → Outcome Text
  verify_and_load_module buf =
      if leb (length buf) hash_len
      then invalid (lit "buffer not long enough")
      else let size = length buf - hash_len in
        let unsafe_module = drop hash_len buf in
        let hash_arr = hash_pack (l.xxh3 unsafe_module) in
        if not (text_eq hash_arr (take hash_len buf))
        then invalid (hash_message hash_arr buf)
        else if not (l.get_size unsafe_module == size)
        then invalid (size_message size (l.get_size unsafe_module))
        else if not (l.get_version unsafe_module == l.version)
        then invalid (version_message (l.get_version unsafe_module) l.version)
        else ok (l.patch_pointers unsafe_module)

  -- The end of `VM::compile`: the hash of the normalized module, and `module_size` bytes of it.
  unfoldable pub pack_module : Text → Text
  pack_module m =
      let n = l.normalize_pointers m in
      let bytes = take (l.get_size n) n in hash_pack (l.xxh3 bytes) ++ bytes
