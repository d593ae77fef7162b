-- ===== src/Utils/Expression/Totality.antt =====
-- Which values `expression` of src/utils.c turns into a string, and which it refuses.
use php_handlebars.Base.{◌^◌, ◌<◌, ◌≡◌, ◌≢◌, lit, Bool-cases, inl, inr}
use php_handlebars.Zend.{Buckets, array}
use php_handlebars.Zend.Hash.{keys, num_elements}
use php_handlebars.Zend.Outcome.{ok, throw_exception, runtime_exception}
use php_handlebars.Zend.Engine.{Engine}
use php_handlebars.Utils.IntArray.{is_int_array}
use php_handlebars.Utils.IntArray.Keys.{count_from, is_int_array_iff}
use php_handlebars.Utils.Expression.{expression}

-- An array of fewer than 2 ^ 64 entries is joined by commas if its keys are 0, 1, 2, ... in order, and
-- otherwise the runtime exception of an associative array is thrown.
pub expression-array :
    (e : Engine) (b : Buckets)
    → num_elements b < 2 ^ 64
    → (keys b ≡ count_from 0 (num_elements b) → expression e (array b) ≡ ok (e.implode (lit ",") b))
      × (keys b ≢ count_from 0 (num_elements b)
          → expression e (array b)
            ≡ throw_exception runtime_exception (lit "Trying to stringify assoc array"))
unfolding expression
expression-array e b h =
    let decided = is_int_array_iff b h in
    elim (Bool-cases (is_int_array (array b))) [
      | inl yes_int ↦ ((λ _. rw yes_int), λ other. absurd (other (decided.0 yes_int)))
      | inr not_int ↦ ((λ counted. cc (not_int, decided.1 counted)), λ _. rw not_int)
    ]
