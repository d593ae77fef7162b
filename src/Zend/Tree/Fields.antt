-- ===== src/Zend/Tree/Fields.antt =====
-- Arrays that are filled by `add_assoc` with keys that differ: records with optional fields.
use php_handlebars.Base.{
  ◌≡◌, refl, ap, ◌∙◌, sym, Bool, true, false, not, ◌&&◌, Option, none, some, List, [], ◌∷◌, ◌++◌,
  Text, text_eq, arith, if◌then◌else◌, append-nil, append_assoc,
}
use php_handlebars.Zend.{name}
use php_handlebars.Zend.Hash.{symtable_key, numeric_key}
use php_handlebars.Zend.Tree.{Tree, Entries, end, entry, find, update, add_assoc}

-- A key with its value, or none for a field that is left out.
abbrev pub Field : Type 0
Field = Text × Option Tree

-- The array with the fields that are there, in their order.
abbrev pub entries_of : List Field → Entries
entries_of [] = end
entries_of ((k, none) ∷ fs) = entries_of fs
entries_of ((k, some v) ∷ fs) = entry (name k) v (entries_of fs)

abbrev pub add_field : Text → Option Tree → Entries → Entries
add_field k none e = e
add_field k (some v) e = add_assoc k v e

-- `add_assoc` for each field in turn.
abbrev pub adds : List Field → Entries → Entries
adds [] e = e
adds ((k, v) ∷ fs) e = adds fs (add_field k v e)

abbrev absent : Text → List Field → Bool
absent k [] = true
absent k ((j, v) ∷ fs) = not (text_eq j k) && absent k fs

-- No decimal, which would be an integer key.
abbrev is_plain : Text → Bool
is_plain k = elim (numeric_key k) [ none ↦ true | some n ↦ false ]

-- The keys of the fields to be added are plain, and new each time.
abbrev pub fits : List Field → List Field → Bool
fits fs [] = true
fits fs ((k, v) ∷ gs) = is_plain k && (absent k fs && fits (fs ++ (k, v) ∷ []) gs)

symtable_key-plain : (k : Text) → is_plain k ≡ true → symtable_key k ≡ name k
symtable_key-plain k h = ground arith

update-absent :
    (fs : List Field) (k : Text) (v : Tree)
    → absent k fs ≡ true
    → update (name k) v (entries_of fs) ≡ entries_of (fs ++ (k, some v) ∷ [])
update-absent [] k v h = refl
update-absent ((j, none) ∷ fs) k v h = ground (arith, update-absent fs k v)
update-absent ((j, some w) ∷ fs) k v h = ground (arith, update-absent fs k v)

entries_of-none : (fs : List Field) (k : Text) → entries_of (fs ++ (k, none) ∷ []) ≡ entries_of fs
entries_of-none [] k = refl
entries_of-none ((j, none) ∷ fs) k = entries_of-none fs k
entries_of-none ((j, some w) ∷ fs) k = ap (entry (name j) w) (entries_of-none fs k)

add_field-last :
    (fs : List Field) (k : Text) (v : Option Tree)
    → is_plain k ≡ true
    → absent k fs ≡ true
    → add_field k v (entries_of fs) ≡ entries_of (fs ++ (k, v) ∷ [])
add_field-last fs k none plain new = sym (entries_of-none fs k)
add_field-last fs k (some v) plain new =
    ap (λ j. update j v (entries_of fs)) (symtable_key-plain k plain) ∙ update-absent fs k v new

-- Fields with new keys are appended.
pub adds-entries :
    (fs gs : List Field) → fits fs gs ≡ true → adds gs (entries_of fs) ≡ entries_of (fs ++ gs)
adds-entries fs [] h = ap entries_of (sym (append-nil fs))
adds-entries fs ((k, v) ∷ gs) h =
    ap (adds gs) (add_field-last fs k v (ground arith) (ground arith))
    ∙ adds-entries (fs ++ (k, v) ∷ []) gs (ground arith)
    ∙ ap entries_of (append_assoc fs ((k, v) ∷ []) gs)

abbrev pub or_else : Option Tree → Option Tree → Option Tree
or_else none w = w
or_else (some v) w = some v

-- The first field under a key that is there.
abbrev pub lookup : Text → List Field → Option Tree
lookup k [] = none
lookup k ((j, v) ∷ fs) = let rest = lookup k fs in if text_eq j k then or_else v rest else rest

pub find-entries_of : (k : Text) (fs : List Field) → find (name k) (entries_of fs) ≡ lookup k fs
find-entries_of k [] = refl
find-entries_of k ((j, none) ∷ fs) = ground (arith, find-entries_of k fs)
find-entries_of k ((j, some v) ∷ fs) = ground (arith, find-entries_of k fs)

pub or_else-none : (v : Option Tree) → or_else v none ≡ v
or_else-none none = refl
or_else-none (some v) = refl
