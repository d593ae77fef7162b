-- ===== src/Vm/Render.antt =====
-- `render` of src/vm.c, behind the methods `render`, `renderFile` and `renderFromBinaryString`, with
-- the calls that it makes on the template cache.
pub mod Trace
pub mod Cache
pub mod Balance
pub mod FromBinary
pub mod Configured
pub mod Missed
pub mod Session
pub mod Forgotten
pub mod Files
pub mod Strings
use php_handlebars.Base.{
  ℕ, Bool, true, false, ◌&&◌, Option, none, some, List, [], ◌∷◌, ◌++◌, Text, lit, ltb,
  if◌then◌else◌,
}
use php_handlebars.Zend.{ℤ, pos, negsuc, Zval, array, string, reference, name}
use php_handlebars.Zend.Hash.{find}
use php_handlebars.Zend.Outcome.{
  Outcome, ok, throw, aborted, ◌>>=◌, throw_exception, runtime_exception,
}
use php_handlebars.Libhandlebars.{LibResult, Vm, Run, Library, php_handlebars_try}
use php_handlebars.Value.{Value}
use php_handlebars.Value.FromZval.{from_zval}
use php_handlebars.Vm.Binary.{verify_and_load_module}
use php_handlebars.Vm.Compile.{Compiled, compile}
use php_handlebars.Vm.Object.{VmObj}

-- `enum input_type`
pub data InputType : Type 0 where
  input_type_string input_type_filename input_type_binary : InputType

-- The calls of `handlebars_cache_find` that find a module, `_release` and `_add`, with the cache id.
-- A module that is released may be NULL.
pub data CacheEvent : Type 0 where
  found added : Text → Text → CacheEvent
  released : Text → Option Text → CacheEvent

-- What a call of `render` meets: the module globals, the cache and the file system, neither of which
-- is in the repository, the iterations over values, which libhandlebars has, and the object.
-- `cache_find` is none if `HANDLEBARS_G(cache)` is NULL.
pub record World : Type 0 where
  pub cache_find : Option (Text → Option Text)
  pub cache_stat : Bool
  -- `php_stat` of FS_MTIME
  pub mtime : Text → ℤ
  -- a stream that cannot be opened, and one whose contents come back as NULL, have no contents
  pub open_stream : Text → Option (Option Text)
  -- the keys of the helpers at each of the two iterations over them
  pub iterated : Value → List (Option Text) × List (Option Text)
  -- the object whose method is called
  pub intern : VmObj

-- The cache id of the options, else of the input; a binary string has none. The source reads the
-- options as an array without a test of their type.
unfoldable pub default_cache_id : InputType → Text → Option Text
default_cache_id input_type_binary input = none
default_cache_id input_type_string input = some input
default_cache_id input_type_filename input = some input

unfoldable pub option_cache_id : Option Zval → Option Text → Option Text
option_cache_id (some (string s)) d = some s
option_cache_id _ d = d

unfoldable pub cache_id_of : InputType → Option Zval → Text → Outcome (Option Text)
unfolding default_cache_id option_cache_id
cache_id_of type none input = ok (default_cache_id type input)
cache_id_of type (some (array ht)) input =
    ok (option_cache_id (find (name (lit "cacheId")) ht) (default_cache_id type input))
cache_id_of type (some _) input = aborted

-- The variables `module` and `from_cache`, and the calls on the cache so far.
pub record Lookup : Type 0 where
  pub bytes : Option Text
  pub from_cache : Bool
  pub trace : List CacheEvent

abbrev pub not_found : Lookup
not_found = record { bytes = none; from_cache = false; trace = [] }

unfoldable pub is_filename : InputType → Bool
is_filename input_type_filename = true
is_filename _ = false

-- `>` of two longs
abbrev pub greater : ℤ → ℤ → Bool
greater (pos a) (pos b) = ltb b a
greater (pos a) (negsuc b) = true
greater (negsuc a) (pos b) = false
greater (negsuc a) (negsuc b) = ltb a b

-- A new vm, with the module's cache, the helpers and partials that the object keeps, and its logger.
unfoldable pub new_vm : World → Vm
new_vm w = record {
  flags = [];
  data_value = none;
  helpers = w.intern.helpers;
  partials = w.intern.partials;
  cache = w.cache_find;
  logger = w.intern.std.logger;
}

abbrev pub failed_to_read {ℓ} : {A : Type ℓ} → Outcome A
failed_to_read = throw_exception runtime_exception (lit "Failed to read input template file")

-- `ZVAL_DEREF`, and the conversion of the context into a value that is null before
unfoldable pub context_value : Option Zval → LibResult Value
context_value none = LibResult.returns Value.null
context_value (some (reference v)) = from_zval v Value.null
context_value (some v) = from_zval v Value.null

unfoldable pub returned_buffer : Run → Option Text
returned_buffer r = if r.exception then none else r.buffer

abbrev pub vm_or_new : World → Option Vm → Vm
vm_or_new w none = new_vm w
vm_or_new w (some vm) = vm

-- What the method returns or throws, its calls on the cache, the variable `module` at `done`, and the
-- modules that the run of the vm added to the cache itself, with their ids.
pub record Rendered : Type 0 where
  pub result : Outcome (Option Text)
  pub trace : List CacheEvent
  pub bytes : Option Text
  pub saved : List (Text × Text)

-- What a run of the vm adds to the cache that it was given.
unfoldable pub saved_in :
    Option (Text → Option Text)
    → LibResult Value
    → ((Text → Option Text) → Value → List (Text × Text))
    → List (Text × Text)
saved_in none context saves = []
saved_in (some cache) (LibResult.returns context) saves = saves cache context
saved_in (some cache) (LibResult.raises e) saves = []

-- `done`: the release of what came from the cache
unfoldable pub release_at_done : Bool → Option Text → Rendered → Rendered
release_at_done true (some id) r = record r { trace = r.trace ++ released id r.bytes ∷ [] }
release_at_done from_cache id r = r

-- A process that was aborted does not come to `done`; its trace ends where it was.
unfoldable pub finish : Bool → Option Text → Rendered → Rendered
unfolding release_at_done
finish from_cache id r = elim r.result [ aborted ↦ r | _ ↦ release_at_done from_cache id r ]

module _ {Ast Program : Type 0} (l : Library Ast Program) (w : World) where
  -- A file whose module was compiled before it was last written.
  unfoldable pub is_stale : InputType → Text → Text → Bool
  unfolding is_filename
  is_stale type input bytes =
      is_filename type && (w.cache_stat && greater (w.mtime input) (l.get_ts bytes))

  -- `from_cache` is set to true at the end of the block whether or not the module was stale.
  unfoldable pub found_entry : InputType → Text → Text → Text → Lookup
  unfolding is_stale
  found_entry type input id bytes =
      if is_stale type input bytes
      then record {
        bytes = none;
        from_cache = true;
        trace = found id bytes ∷ released id (some bytes) ∷ [];
      }
      else record { bytes = some bytes; from_cache = true; trace = found id bytes ∷ [] }

  unfoldable pub lookup_cache : InputType → Text → Option Text → Lookup
  unfolding found_entry
  lookup_cache type input none = not_found
  lookup_cache type input (some id) = elim w.cache_find [
    | none ↦ not_found
    | some find_module ↦ elim (find_module id) [
      | none ↦ not_found
      | some bytes ↦ found_entry type input id bytes
    ]
  ]

  unfoldable pub read_file : Text → Outcome Text
  read_file input = elim (w.open_stream input) [
    | none ↦ failed_to_read
    | some contents ↦ elim contents [ none ↦ failed_to_read | some tmpl ↦ ok tmpl ]
  ]

  unfoldable pub loaded_binary : Text → Outcome (Option Compiled)
  loaded_binary buf = do
    bytes ← verify_and_load_module l buf
    ok (some (record { bytes = bytes; vm = some (new_vm w) }))

  -- `if( !module )`: read, compile or load it.
  unfoldable pub make_module : InputType → Text → Option Zval → Outcome (Option Compiled)
  unfolding read_file loaded_binary
  make_module input_type_string input z_options =
      compile l (some (new_vm w)) input (some (w.iterated w.intern.helpers)) z_options
  make_module input_type_filename input z_options = do
    tmpl ← read_file input
    compile l (some (new_vm w)) tmpl (some (w.iterated w.intern.helpers)) z_options
  make_module input_type_binary input z_options = loaded_binary input

  -- `if( cache && cache_id )`
  unfoldable pub add_event : Option Text → Text → List CacheEvent
  add_event none bytes = []
  add_event (some id) bytes = elim w.cache_find [
    | none ↦ []
    | some find_module ↦ added id bytes ∷ []
  ]

  unfoldable pub execute : Vm → Text → Option Zval → Outcome (Option Text)
  unfolding context_value returned_buffer php_handlebars_try
  execute vm bytes z_context =
      php_handlebars_try runtime_exception (context_value z_context) λ context.
        php_handlebars_try runtime_exception (l.execute vm bytes context)
          λ run. ok (returned_buffer run)

  unfoldable pub run_saves : Vm → Text → Option Zval → List (Text × Text)
  unfolding saved_in context_value
  run_saves vm bytes z_context =
      saved_in vm.cache (context_value z_context) λ cache context. l.saves cache vm bytes context

  -- `if( !module )`, with the entry that is saved in the cache.
  unfoldable pub run_made :
      Option Text → List CacheEvent → Option Zval → Outcome (Option Compiled) → Rendered
  unfolding add_event execute run_saves
  run_made id trace z_context (ok none) = record {
    result = ok none;
    trace = trace;
    bytes = none;
    saved = [];
  }
  run_made id trace z_context (ok (some c)) = record {
    result = execute (vm_or_new w c.vm) c.bytes z_context;
    trace = trace ++ add_event id c.bytes;
    bytes = some c.bytes;
    saved = run_saves (vm_or_new w c.vm) c.bytes z_context;
  }
  run_made id trace z_context (throw e) = record {
    result = throw e;
    trace = trace;
    bytes = none;
    saved = [];
  }
  run_made id trace z_context aborted = record {
    result = aborted;
    trace = trace;
    bytes = none;
    saved = [];
  }

  unfoldable pub run_found :
      InputType → Text → Option Text → Option Zval → Option Zval → Lookup → Rendered
  unfolding run_made make_module execute run_saves
  run_found type input id z_context z_options entry = elim entry.bytes [
    | some bytes ↦ record {
      result = execute (new_vm w) bytes z_context;
      trace = entry.trace;
      bytes = some bytes;
      saved = run_saves (new_vm w) bytes z_context;
    }
    | none ↦ run_made id entry.trace z_context (make_module type input z_options)
  ]

  unfoldable pub render_with_id :
      InputType → Text → Option Zval → Option Zval → Option Text → Rendered
  unfolding lookup_cache run_found finish
  render_with_id type input z_context z_options id =
      let found_module = lookup_cache type input id in
      finish found_module.from_cache id (run_found type input id z_context z_options found_module)

  unfoldable pub render : InputType → Text → Option Zval → Option Zval → Rendered
  unfolding cache_id_of render_with_id
  render type input z_context z_options = elim (cache_id_of type z_options input) [
    | ok id ↦ render_with_id type input z_context z_options id
    | throw e ↦ record { result = throw e; trace = []; bytes = none; saved = [] }
    | aborted ↦ record { result = aborted; trace = []; bytes = none; saved = [] }
  ]
