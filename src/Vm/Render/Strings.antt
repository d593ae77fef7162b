-- ===== src/Vm/Render/Strings.antt =====
-- The strings that `render` of src/vm.c makes in the module's own context, which outlives the call: the
-- input and the cache id, and the references to them that it counts and gives back.
pub mod GivenBack
use php_handlebars.Base.{
  ℕ, suc, zero, ◌≡◌, ◌≢◌, refl, Option, none, some, List, [], ◌∷◌, ◌++◌, Text, lit, arith, Bool,
  true, false, not, ◌||◌, ◌⊎◌, ◌↔◌, inl, inr, Bool-cases, if◌then◌else◌,
}
use php_handlebars.Zend.{Zval, array, string, name}
use php_handlebars.Zend.Hash.{find}
use php_handlebars.Zend.Outcome.{Outcome, ok, throw, aborted}
use php_handlebars.Libhandlebars.{Library, Compiler, returns, raises}
use php_handlebars.Vm.ProcessOptions.{Processed, process_options}
use php_handlebars.Vm.Compile.{Compiled, has_compat, add_helpers, new_compiler, compile_template}
use php_handlebars.Vm.Render.{
  InputType, input_type_string, input_type_filename, input_type_binary, World, default_cache_id,
  option_cache_id, cache_id_of, lookup_cache, new_vm, render,
}

-- The string of the input, and the one of the option `cacheId`.
pub data HbsString : Type 0 where
  input_string option_string : HbsString

pub data StringEvent : Type 0 where
  constructed addref delref : HbsString → StringEvent

-- What the variable `cache_id` points to.
unfoldable pub default_string : InputType → Option HbsString
default_string input_type_binary = none
default_string input_type_string = some input_string
default_string input_type_filename = some input_string

unfoldable pub cache_id_string : InputType → Option Zval → Option HbsString
unfolding default_string
cache_id_string type (some (string s)) = some option_string
cache_id_string type _ = default_string type

-- The entry `cacheId` of the options.
unfoldable pub cache_id_option : Option Zval → Option Zval
cache_id_option (some (array ht)) = find (name (lit "cacheId")) ht
cache_id_option _ = none

-- `Check cache id`
unfoldable pub hold : Option HbsString → List StringEvent
hold none = []
hold (some input_string) = addref input_string ∷ []
hold (some option_string) = constructed option_string ∷ addref option_string ∷ []

-- `if (input)` and `if (cache_id)` at `done`
unfoldable pub give_back : Option HbsString → List StringEvent
give_back none = delref input_string ∷ []
give_back (some s) = delref input_string ∷ delref s ∷ []

-- Whether the string with which `compile` of src/vm.c ends is the one that it was given: it comes to
-- its end, and with the flag for delimiters `kept` says that `handlebars_preprocess_delimiters` returns
-- the string itself.
unfoldable pub gives_back_input : (Text → Bool) → Compiler → Text → Outcome (Option Compiled) → Bool
gives_back_input kept compiler tmpl (ok (some c)) = not (has_compat compiler.flags) || kept tmpl
gives_back_input kept compiler tmpl _ = false

unfoldable pub taken : Bool → List StringEvent
taken true = addref input_string ∷ delref input_string ∷ []
taken false = addref input_string ∷ []

module _ {Ast Program : Type 0} (l : Library Ast Program) (kept : Text → Bool) (w : World) where
  -- The calls of `compile` on the string of the template: behind the options and the known helpers.
  unfoldable pub compile_events : Text → Option Zval → List StringEvent
  unfolding gives_back_input taken
  compile_events tmpl z_options =
      elim (process_options (new_compiler l) (some (new_vm w)) z_options) [
        | raises e ↦ []
        | returns p ↦ elim (add_helpers p.vm (some (w.iterated w.intern.helpers)) p.compiler) [
          | ok compiler ↦
              taken (gives_back_input kept compiler tmpl (compile_template l compiler p.vm tmpl))
          | _ ↦ []
        ]
      ]

  -- The string that `compile` is given for a file is another one, which goes with the vm.
  unfoldable pub made_events : InputType → Text → Option Zval → Option Text → List StringEvent
  unfolding compile_events
  made_events input_type_string input z_options none = compile_events input z_options
  made_events input_type_string input z_options (some bytes) = []
  made_events _ input z_options bytes = []

  -- What a process that was aborted held it held to the end.
  unfoldable pub string_events_of :
      Option HbsString → List StringEvent → Outcome (Option Text) → List StringEvent
  unfolding hold give_back
  string_events_of id made aborted = constructed input_string ∷ addref input_string ∷ hold id
  string_events_of id made result =
      constructed input_string ∷ addref input_string ∷ (hold id ++ (made ++ give_back id))

  -- The calls on the two strings in the course of `render`.
  unfoldable pub string_events : InputType → Text → Option Zval → Option Zval → List StringEvent
  unfolding string_events_of cache_id_string cache_id_option made_events
  string_events type input z_context z_options = elim (cache_id_of type z_options input) [
    | ok id ↦
        string_events_of (cache_id_string type (cache_id_option z_options))
          (made_events type input z_options (lookup_cache l w type input id).bytes)
          (render l w type input z_context z_options).result
    | _ ↦ constructed input_string ∷ addref input_string ∷ []
  ]

  -- `compile` took its reference to the template: the options and the known helpers were read.
  pub record Took (tmpl : Text) (z_options : Option Zval) : Type 0 where
    pub processed : Processed
    pub compiler : Compiler
    pub read : process_options (new_compiler l) (some (new_vm w)) z_options ≡ returns processed
    pub helped :
        add_helpers processed.vm (some (w.iterated w.intern.helpers)) processed.compiler
        ≡ ok compiler

  -- The template, which is not in the cache, is compiled, and either a later stage fails or its
  -- delimiters are replaced in another string.
  abbrev pub Leaks : InputType → Text → Option Zval → Option Text → Type 0
  Leaks type input z_options bytes =
      (type ≡ input_type_string)
      × (bytes ≡ none)
      × (t : Took input z_options) × (gives_back_input kept t.compiler input
            (compile_template l t.compiler t.processed.vm input)
          ≡ false)

abbrev same : HbsString → HbsString → Bool
same input_string input_string = true
same option_string option_string = true
same _ _ = false

-- The references to a string after the calls, if it never had fewer than one in between.
abbrev pub references : HbsString → ℕ → List StringEvent → Option ℕ
references s n [] = some n
references s n (constructed t ∷ l) = references s n l
references s n (addref t ∷ l) = if same s t then references s (suc n) l else references s n l
references s zero (delref t ∷ l) = if same s t then none else references s zero l
references s (suc n) (delref t ∷ l) = if same s t then references s n l else references s (suc n) l

-- The text of the string behind the variable is the cache id with which the cache is asked.
abbrev pub text_of : Text → Option Zval → Option HbsString → Option Text
text_of input entry none = none
text_of input entry (some input_string) = some input
text_of input (some (string s)) (some option_string) = some s
text_of input _ (some option_string) = none
