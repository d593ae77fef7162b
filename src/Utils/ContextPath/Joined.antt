-- ===== src/Utils/ContextPath/Joined.antt =====
-- `appendContextPath` of src/utils.c on paths that are C strings shorter than 2 ^ 31 bytes.
use php_handlebars.Base.{
  ℕ, ◌+◌, ◌^◌, ◌<◌, ◌≡◌, ◌≢◌, refl, ap, [], ◌∷◌, ◌++◌, Text, lit, length, length-append, take, All,
  All-append, append_assoc, arith,
}
use php_handlebars.Zend.{string}
use php_handlebars.Zend.Outcome.{ok, ◌>>=◌}
use php_handlebars.Zend.Engine.{Engine}
use php_handlebars.Utils.CString.{c_string, format_s}
use php_handlebars.Utils.ContextPath.{
  join_path, context_path_entry, append_to_entry, append_context_path,
}

-- No byte of zero.
abbrev pub IsCString : Text → Type 0
IsCString t = All (λ c. c ≢ 0) t

take-length : (t : Text) → take (length t) t ≡ t
take-length [] = refl
take-length (c ∷ t) = ap (λ (u : Text). c ∷ u) (take-length t)

c_string-IsCString : (t : Text) → IsCString t → c_string t ≡ t
c_string-IsCString [] h = refl
c_string-IsCString (c ∷ t) h = ground (arith, h.0, c_string-IsCString t h.1)

format_s-IsCString : (t : Text) → IsCString t → length t < 2 ^ 31 → format_s (length t) t ≡ t
format_s-IsCString t h short = ground (arith, take-length t, c_string-IsCString t h)

join_path-eq-append :
    (p a : Text)
    → IsCString p
    → IsCString a
    → length p < 2 ^ 31
    → length a < 2 ^ 31
    → join_path p a ≡ p ++ lit "." ++ a
unfolding join_path
join_path-eq-append p a hp ha sp sa = rw (format_s-IsCString p hp sp, format_s-IsCString a ha sa)

-- A path that is not empty, and a segment.
append_context_path-string :
    (e : Engine) (c : ℕ) (p a : Text)
    → IsCString (c ∷ p)
    → IsCString a
    → length (c ∷ p) < 2 ^ 31
    → length a < 2 ^ 31
    → append_context_path e (string (c ∷ p)) a ≡ ok (c ∷ (p ++ lit "." ++ a))
unfolding append_context_path context_path_entry append_to_entry
append_context_path-string e c p a hp ha sp sa =
    ground (arith, join_path-eq-append (c ∷ p) a hp ha sp sa)

IsCString-join : (a b : Text) → IsCString a → IsCString b → IsCString (a ++ lit "." ++ b)
IsCString-join a b ha hb =
    All-append (λ c. c ≢ 0) (a ++ lit ".") b
      (All-append (λ c. c ≢ 0) a (lit ".") ha (omega arith, tt)) hb

length-join : (a b : Text) → length (a ++ lit "." ++ b) ≡ length a + length b + 1
length-join a b = omega (arith, length-append (a ++ lit ".") b, length-append a (lit "."))

-- Appending two segments to a path that is not empty, one after the other, is appending their join,
-- for strings that hold no byte of zero and are shorter than 2 ^ 31 bytes together.
pub append_context_path_assoc :
    (e : Engine) (c : ℕ) (p a b : Text)
    → IsCString (c ∷ p)
    → IsCString a
    → IsCString b
    → length p + length a + length b + 3 < 2 ^ 31
    → (append_context_path e (string (c ∷ p)) a >>= λ q. append_context_path e (string q) b)
      ≡ append_context_path e (string (c ∷ p)) (a ++ lit "." ++ b)
append_context_path_assoc e c p a b hp ha hb short =
    let q : Text = p ++ lit "." ++ a in
    let joined : IsCString (c ∷ q) = (hp.0, IsCString-join p a hp.1 ha) in
    let longer : length (c ∷ q) < 2 ^ 31 = omega (arith, length-join p a) in
    let segments : length (a ++ lit "." ++ b) < 2 ^ 31 = omega (arith, length-join a b) in
    rw
      (
        append_context_path-string e c p a hp ha (omega arith) (omega arith),
        append_context_path-string e c q b joined hb longer (omega arith),
        append_context_path-string e c p (a ++ lit "." ++ b) hp (IsCString-join a b ha hb)
            (omega arith) segments,
      )
      (simp append_assoc)
