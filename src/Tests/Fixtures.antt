-- ===== src/Tests/Fixtures.antt =====
-- A small engine and a small library, to run the models of src/utils.c and src/vm.c with.
use php_handlebars.Base.{
  ℕ, ◌+◌, true, false, Option, none, some, List, [], ◌∷◌, ◌++◌, Text, lit, length, drop, ◌==◌,
  if◌then◌else◌,
}
use php_handlebars.Zend.{pos, Zval}
use php_handlebars.Zend.Engine.{Engine}
use php_handlebars.Libhandlebars.{Library, returns}
use php_handlebars.Value.{Value, no_fields}
use php_handlebars.Vm.Object.{obj_create}
use php_handlebars.Vm.Render.{World}

abbrev pub html_byte : ℕ → Text
html_byte c =
    if c == 60
    then lit "&lt;"
    else if c == 62
    then lit "&gt;"
    else if c == 34
    then lit "&quot;"
    else c ∷ []

abbrev pub html : Text → Text
html [] = []
html (c ∷ t) = html_byte c ++ html t

abbrev text_value : Zval → Text
text_value (Zval.string s) = s
text_value _ = []

-- An engine without classes, whose objects have nothing.
abbrev pub test_engine : Engine
test_engine = record {
  asserts = true;
  instance_of = λ o ce. false;
  has_tostring = λ o. false;
  is_callable_object = λ o. false;
  is_callable_method = λ o m. false;
  fake_closure = λ o m. Zval.null;
  has_dimension = λ o k. false;
  read_dimension = λ o k. none;
  read_property = λ o k. none;
  get_properties = λ o. none;
  count_method = λ o. none;
  convert_to_string = text_value;
  implode = λ glue b. glue;
  array_merge = λ a b. b;
  escape_html = λ q t. html t;
}

-- A module is its length, its version, and the template itself.
abbrev pub head_or_zero : Text → ℕ
head_or_zero [] = 0
head_or_zero (c ∷ t) = c

abbrev pub test_library : Library Text Text
test_library = record {
  builtins = lit "if" ∷ lit "each" ∷ [];
  preprocess_delimiters = λ t. returns t;
  parse = λ t flags. returns t;
  compile = λ compiler ast. returns ast;
  serialize = λ program. returns ((length program + 2) ∷ 3 ∷ program);
  get_size = head_or_zero;
  get_version = λ m. head_or_zero (drop 1 m);
  get_ts = λ m. pos 100;
  normalize_pointers = λ m. m;
  patch_pointers = λ m. m;
  xxh3 = length;
  version = 3;
  saves = λ cache vm m context. [];
  execute = λ vm m context. returns (record { buffer = some (drop 2 m); exception = false });
  print_number = λ n. n ∷ [];
}

-- A vm that runs a module alone if it has no partials, and otherwise appends what it has of the partial
-- "p" in its cache, or saves that partial there.
abbrev pub shared_buffer : Value → Option (Text → Option Text) → Text → Text
shared_buffer (Value.map no_fields) cache m = drop 2 m
shared_buffer partials none m = drop 2 m
shared_buffer partials (some cache) m = elim (cache (lit "p")) [
  | none ↦ drop 2 m
  | some p ↦ drop 2 m ++ drop 2 p
]

abbrev pub shared_saves : Value → List (Text × Text)
shared_saves (Value.map no_fields) = []
shared_saves partials = (lit "p", 3 ∷ 3 ∷ lit "p") ∷ []

abbrev pub sharing_library : Library Text Text
sharing_library = record test_library {
  saves = λ cache vm m context. shared_saves vm.partials;
  execute = λ vm m context.
      returns (record { buffer = some (shared_buffer vm.partials vm.cache m); exception = false });
}

-- The module of the template "hi", and its binary string.
abbrev pub hi_module : Text
hi_module = 4 ∷ 3 ∷ lit "hi"

abbrev pub hi_binary : Text
hi_binary = 0 ∷ 0 ∷ 0 ∷ 0 ∷ 0 ∷ 0 ∷ 0 ∷ 4 ∷ hi_module

abbrev pub always_hi : Text → Option Text
always_hi id = some hi_module

-- A cache that has the module under every id, and files that are never newer.
abbrev pub caching_world : World
caching_world = record {
  cache_find = some always_hi;
  cache_stat = true;
  mtime = λ f. pos 100;
  open_stream = λ f. some (some (lit "hi"));
  iterated = λ v. ([], []);
  intern = obj_create;
}

abbrev pub stale_world : World
stale_world = record caching_world { mtime = λ f. pos 200 }

abbrev pub uncached_world : World
uncached_world = record caching_world { cache_find = none }
