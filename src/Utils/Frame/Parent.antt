-- ===== src/Utils/Frame/Parent.antt =====
-- What can be looked up in a frame that `createFrame` of src/utils.c makes.
use php_handlebars.Base.{◌≡◌, Option, none, some, Text, lit, text_eq, if◌then◌else◌}
use php_handlebars.Zend.{Key, Zval, Buckets, array, end, name}
use php_handlebars.Zend.Hash.{find, find-update_name}
use php_handlebars.Zend.Engine.{Engine}
use php_handlebars.Utils.Frame.{create_frame}

abbrev pub find_in : Key → Zval → Option Zval
find_in k (array b) = find k b
find_in k _ = none

-- What `php_array_merge` does with string keys.
abbrev pub KeepsNames : Engine → Type 0
KeepsNames e = (k : Text) (b : Buckets) → find (name k) (e.array_merge end b) ≡ find (name k) b

-- If `php_array_merge` into an empty array keeps the entries under string keys, then in the frame of
-- an array the key `_parent` has the whole array, an entry of that name included, and every other
-- string key has what it has in the array.
pub create_frame-find :
    (e : Engine) (b : Buckets)
    → KeepsNames e
    → (k : Text)
    → find_in (name k) (create_frame e (array b))
      ≡ (if text_eq (lit "_parent") k then some (array b) else find (name k) b)
unfolding create_frame
create_frame-find e b h k =
    rw (find-update_name (lit "_parent") k (array b) (e.array_merge end b), h k b)
