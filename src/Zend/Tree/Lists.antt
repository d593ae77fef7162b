-- ===== src/Zend/Tree/Lists.antt =====
-- Arrays that are filled by `add_next` only: lists, with the keys 0, 1, 2, ...
use php_handlebars.Base.{
  ℕ, suc, ◌+◌, ◌≡◌, sym, ap, ◌∙◌, List, [], ◌∷◌, ◌++◌, append_assoc, append-nil, length, arith, max,
}
use php_handlebars.Zend.{index}
use php_handlebars.Zend.Tree.{Tree, Entries, end, entry, update, next_index, add_next}

-- The array with these values under the keys i, i + 1, ...
abbrev pub list_entries : ℕ → List Tree → Entries
list_entries i [] = end
list_entries i (v ∷ vs) = entry (index i) v (list_entries (suc i) vs)

-- `add_next` for each value in turn
abbrev pub add_all : List Tree → Entries → Entries
add_all [] b = b
add_all (v ∷ vs) b = add_all vs (add_next v b)

update-last :
    (i : ℕ) (vs : List Tree) (v : Tree)
    → update (index (i + length vs)) v (list_entries i vs) ≡ list_entries i (vs ++ v ∷ [])
update-last i [] v = ground arith
update-last i (w ∷ vs) v = ground (arith, update-last (suc i) vs v)

next_index-list : (i : ℕ) (vs : List Tree) → max i (next_index (list_entries i vs)) ≡ i + length vs
next_index-list i [] = omega arith
next_index-list i (w ∷ vs) = ground (arith, next_index-list (suc i) vs)

pub add_next-list :
    (vs : List Tree) (v : Tree) → add_next v (list_entries 0 vs) ≡ list_entries 0 (vs ++ v ∷ [])
add_next-list vs v =
    let last : next_index (list_entries 0 vs) ≡ 0 + length vs =
      ground (arith, next_index-list 0 vs) in
    rw last (update-last 0 vs v)

-- Adding values one by one to a list appends them to it.
pub add_all-list : (vs ws : List Tree) → add_all ws (list_entries 0 vs) ≡ list_entries 0 (vs ++ ws)
add_all-list vs [] = ap (list_entries 0) (sym (append-nil vs))
add_all-list vs (w ∷ ws) =
    ap (add_all ws) (add_next-list vs w)
    ∙ add_all-list (vs ++ w ∷ []) ws
    ∙ ap (list_entries 0) (append_assoc vs (w ∷ []) ws)
