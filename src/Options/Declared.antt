-- ===== src/Options/Declared.antt =====
-- The properties that src/options.c declares for `Handlebars\Options` on PHP 8, beside the handlers that
-- fill them in.
use php_handlebars.Base.{
  ◌≡◌, refl, sym, subst, Bool, true, false, not, ◌&&◌, ◌||◌, is_some, inl, inr, List, [], ◌∷◌, ◌++◌,
  Text, lit, text_eq, text_eq_sound, Bool-cases,
}
use php_handlebars.Options.Properties.{prop_handler}

-- `zend_declare_property_null`: those of a helper's options, and those for handlebars.php
abbrev pub own_properties : List Text
own_properties = lit "name" ∷ lit "hash" ∷ lit "fn" ∷ lit "inverse" ∷ lit "scope" ∷ lit "data" ∷ []

abbrev pub foreign_properties : List Text
foreign_properties =
    lit "ids"
    ∷ lit "hashIds"
    ∷ lit "hashTypes"
    ∷ lit "hashContexts"
    ∷ lit "types"
    ∷ lit "contexts"
    ∷ lit "args"
    ∷ lit "partial"
    ∷ []

unfoldable pub is_in : Text → List Text → Bool
is_in member [] = false
is_in member (p ∷ l) = text_eq member p || is_in member l

unfoldable pub is_declared : Text → Bool
unfolding is_in
is_declared member = is_in member (own_properties ++ foreign_properties)

abbrev Astray : Text → Type 0
Astray member =
    (is_some (prop_handler member) && not (is_declared member)) ≡ text_eq member (lit "program")

-- What holds of a name holds of every text that is compared with it as equal.
named : (member name : Text) → text_eq member name ≡ true → Astray name → Astray member
named member name e h = subst Astray (sym (text_eq_sound member name e)) h

-- A property that a handler fills in is a declared one, unless it is called "program".
pub prop_handler-declared :
    (member : Text)
    → (is_some (prop_handler member) && not (is_declared member)) ≡ text_eq member (lit "program")
unfolding prop_handler is_declared
prop_handler-declared member = elim (Bool-cases (text_eq member (lit "name"))) [
  | inl e ↦ named member (lit "name") e refl
  | inr n1 ↦ elim (Bool-cases (text_eq member (lit "program"))) [
    | inl e ↦ named member (lit "program") e refl
    | inr n2 ↦ elim (Bool-cases (text_eq member (lit "inverse"))) [
      | inl e ↦ named member (lit "inverse") e refl
      | inr n3 ↦ elim (Bool-cases (text_eq member (lit "scope"))) [
        | inl e ↦ named member (lit "scope") e refl
        | inr n4 ↦ elim (Bool-cases (text_eq member (lit "hash"))) [
          | inl e ↦ named member (lit "hash") e refl
          | inr n5 ↦ elim (Bool-cases (text_eq member (lit "data"))) [
            | inl e ↦ named member (lit "data") e refl
            | inr n6 ↦ rw (n1, n2, n3, n4, n5, n6) refl
          ]
        ]
      ]
    ]
  ]
]
