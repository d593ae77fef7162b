-- ===== src/Vm/Binary/Accepted.antt =====
-- Which buffers `verify_and_load_module` of src/vm.c accepts, and that it accepts what
-- `VM::compile` makes.
use php_handlebars.Base.{
  ℕ, ◌+◌, ◌-◌, ◌<◌, ◌≡◌, ◌≢◌, refl, ap, ◌↔◌, [], ◌∷◌, ◌++◌, Text, text_eq_iff, length,
  length-append, take, drop, arith,
}
use php_handlebars.Zend.Outcome.{ok}
use php_handlebars.Libhandlebars.{Library}
use php_handlebars.Vm.HashPack.{hash_len, hash_pack}
use php_handlebars.Vm.Binary.{invalid, verify_and_load_module, pack_module, hash_message}

module _ {Ast Program : Type 0} (l : Library Ast Program) where
  -- A hash in front of a module that is as long as its header says, from this version of the library.
  pub record IsSound (buf m : Text) : Type 0 where
    pub long_enough : hash_len < length buf
    pub hash_matches : take hash_len buf ≡ hash_pack (l.xxh3 (drop hash_len buf))
    pub size_matches : l.get_size (drop hash_len buf) ≡ length buf - hash_len
    pub version_matches : l.get_version (drop hash_len buf) ≡ l.version
    pub loaded : m ≡ l.patch_pointers (drop hash_len buf)

  verify-IsSound : (buf m : Text) → verify_and_load_module l buf ≡ ok m → IsSound buf m
  unfolding verify_and_load_module
  verify-IsSound buf m h =
      ground (arith, text_eq_iff (hash_pack (l.xxh3 (drop hash_len buf))) (take hash_len buf))

  verify-of_IsSound : (buf m : Text) → IsSound buf m → verify_and_load_module l buf ≡ ok m
  unfolding verify_and_load_module
  verify-of_IsSound buf m s = ground (
    arith,
    s.long_enough,
    s.size_matches,
    s.version_matches,
    s.loaded,
    text_eq_iff (hash_pack (l.xxh3 (drop hash_len buf))) (take hash_len buf),
    s.hash_matches,
  )

  -- `verify_and_load_module` returns a module exactly for a buffer of more than eight bytes whose
  -- first eight are the hash of the others, where the others are as many as the module's header says
  -- and were compiled by this version of the library; and the module is the others with their pointers
  -- patched.
  pub verify_and_load_module_iff :
      (buf m : Text) → (verify_and_load_module l buf ≡ ok m) ↔ IsSound buf m
  verify_and_load_module_iff buf m = (verify-IsSound buf m, verify-of_IsSound buf m)

take-append_length : (s t : Text) → take (length s) (s ++ t) ≡ s
take-append_length [] t = refl
take-append_length (c ∷ s) t = ap (λ (u : Text). c ∷ u) (take-append_length s t)

drop-append_length : (s t : Text) → drop (length s) (s ++ t) ≡ t
drop-append_length [] t = refl
drop-append_length (c ∷ s) t = drop-append_length s t

-- What the pieces of a packed module are.
hash_pack_pieces :
    (val : ℕ) (t : Text)
    → (take hash_len (hash_pack val ++ t) ≡ hash_pack val)
      × (drop hash_len (hash_pack val ++ t) ≡ t)
      × (length (hash_pack val ++ t) ≡ length t + hash_len)
unfolding hash_pack
hash_pack_pieces val t = (refl, refl, omega arith)

take-length : (t : Text) → take (length t) t ≡ t
take-length [] = refl
take-length (c ∷ t) = ap (λ (u : Text). c ∷ u) (take-length t)

-- What the library promises of a module that it has just serialized: its header gives the number of
-- its bytes, more than none, and the version.
pub record IsFresh {Ast Program : Type 0} (l : Library Ast Program) (m : Text) : Type 0 where
  pub not_empty : 0 < length (l.normalize_pointers m)
  pub sized : l.get_size (l.normalize_pointers m) ≡ length (l.normalize_pointers m)
  pub current : l.get_version (l.normalize_pointers m) ≡ l.version

-- The binary string that `VM::compile` makes of a freshly serialized module is loaded again as that
-- module, with its pointers normalized and patched.
pub verify-pack_module :
    {Ast Program : Type 0} (l : Library Ast Program) (m : Text)
    → IsFresh l m
    → verify_and_load_module l (pack_module l m) ≡ ok (l.patch_pointers (l.normalize_pointers m))
unfolding pack_module
verify-pack_module l m fresh =
    let n = l.normalize_pointers m in
    let whole : take (l.get_size n) n ≡ n = rw fresh.sized (take-length n) in
    let (front, back, len) = hash_pack_pieces (l.xxh3 n) n in
    rw whole (
      verify-of_IsSound l _ _ (record {
        long_enough = rw len (omega (arith, fresh.not_empty));
        hash_matches = rw (front, back);
        size_matches = rw (back, len, fresh.sized) (omega arith);
        version_matches = rw back fresh.current;
        loaded = rw back;
      }))

-- With any other eight bytes in front, the module is refused for its hash.
pub verify_tampered :
    {Ast Program : Type 0} (l : Library Ast Program) (h body : Text)
    → length h ≡ hash_len
    → 0 < length body
    → h ≢ hash_pack (l.xxh3 body)
    → verify_and_load_module l (h ++ body)
      ≡ invalid l (hash_message l (hash_pack (l.xxh3 body)) (h ++ body))
unfolding verify_and_load_module
verify_tampered l h body eight some_body wrong = ground (
  arith,
  length-append h body,
  take-append_length h body,
  drop-append_length h body,
  text_eq_iff (hash_pack (l.xxh3 body)) h,
)
