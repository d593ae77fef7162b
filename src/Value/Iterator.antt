-- ===== src/Value/Iterator.antt =====
-- The iterators of src/value.c: `handlebars_std_zval_iterator_init`, `_array`, `_object` and `_void`.
pub mod Loop
pub mod Fused
pub mod Ends
use php_handlebars.Base.{
  ℕ, ◌+◌, Bool, true, false, Option, none, some, List, [], ◌∷◌, Text, if◌then◌else◌,
}
use php_handlebars.Zend.{Key, Zval, Buckets, index, name, end, bucket}
use php_handlebars.Zend.Engine.{Engine, traversable}
use php_handlebars.Libhandlebars.{LibResult, returns, raises}
use php_handlebars.Value.{HandlebarsZval, Value}
use php_handlebars.Value.FromZval.{from_zval}

-- A `zend_object_iterator` over states `S` of the engine: its functions, `EG(exception)`, and whether
-- the optional functions are there. None of it is in the repository.
pub record ObjectIterator (S : Type 0) : Type 0 where
  pub rewind : Option (S → S)
  pub valid : S → Bool × S
  pub get_current_data : S → Zval × S
  -- the key after `convert_to_string`
  pub get_current_key : Option (S → Text × S)
  pub move_forward : S → S
  pub exception : S → Bool
  -- `OBJ_RELEASE`
  pub release : S → S

-- `it->next` with `it->usr`: the array's buckets from the position on, an object's iterator, or none.
pub data Next : Type 0 where
  over_array : Buckets → Next
  over_object : Next
  over_nothing : Next

-- A `handlebars_value_iterator`, with the state of the engine.
pub record Iterator (S : Type 0) : Type 0 where
  pub next : Next
  pub key : Option Text
  pub position : ℕ
  pub cur : Value
  pub engine : S

module _ {S : Type 0} (z : ObjectIterator S) where
  -- `finished` of the array iterator
  unfoldable pub finished : Iterator S → Iterator S
  finished it = record it { next = over_nothing; key = none; cur = Value.null }

  -- The `switch` on the current key.
  unfoldable pub set_key : Key → Iterator S → Iterator S
  set_key (name s) it = record it { key = some s; position = 0 }
  set_key (index n) it = record it { key = none; position = n }

  unfoldable pub iterator_array : Buckets → Iterator S → LibResult (Bool × Iterator S)
  unfolding finished set_key
  iterator_array end it = returns (false, finished it)
  iterator_array (bucket k entry rest) it = elim (from_zval entry it.cur) [
    | returns v ↦ returns (true, record (set_key k it) { cur = v; next = over_array rest })
    | raises x ↦ raises x
  ]

  -- `iterator_err`
  unfoldable pub iterator_err : Iterator S → Iterator S
  iterator_err it = record it {
    next = over_nothing;
    cur = Value.null;
    engine = z.release it.engine;
  }

  unfoldable pub key_step : Iterator S → Iterator S
  key_step it = elim z.get_current_key [
    | none ↦ record it { key = none; position = it.position + 1 }
    | some get_key ↦
        let (s, engine) = get_key it.engine in
        if z.exception engine
        then record it { engine = engine }
        else record it { key = some s; engine = engine }
  ]

  -- From the key on.
  unfoldable pub object_key : Iterator S → Bool × Iterator S
  unfolding key_step iterator_err
  object_key it =
      let keyed = key_step it in
      if z.exception keyed.engine
      then (false, iterator_err keyed)
      else let moved = record keyed { engine = z.move_forward keyed.engine } in
        if z.exception moved.engine then (false, iterator_err moved) else (true, moved)

  -- From the current element on.
  unfoldable pub object_data : Iterator S → LibResult (Bool × Iterator S)
  unfolding object_key iterator_err
  object_data it =
      let (val, engine) = z.get_current_data it.engine in
      let fetched = record it { engine = engine } in
      if z.exception engine
      then returns (false, iterator_err fetched)
      else (elim (from_zval val it.cur) [
        | returns v ↦ returns (object_key (record fetched { cur = v }))
        | raises x ↦ raises x
      ])

  unfoldable pub iterator_object : Iterator S → LibResult (Bool × Iterator S)
  unfolding object_data iterator_err
  iterator_object it =
      let (is_valid, engine) = z.valid it.engine in
      let started = record it { key = none; engine = engine } in
      if is_valid
      then (if z.exception engine
          then returns (false, iterator_err started)
          else object_data started)
      else returns (false, iterator_err started)

  -- `it->next(it)`
  unfoldable pub step : Iterator S → LibResult (Bool × Iterator S)
  unfolding iterator_array iterator_object
  step it = elim it.next [
    | over_array b ↦ iterator_array b it
    | over_object ↦ iterator_object it
    | over_nothing ↦ returns (false, it)
  ]

  unfoldable pub start_nothing : Iterator S → LibResult (Bool × Iterator S)
  start_nothing it = returns (false, record it { next = over_nothing })

  unfoldable pub start_array : Buckets → Iterator S → LibResult (Bool × Iterator S)
  unfolding iterator_array
  start_array b it = iterator_array b (record it { next = over_array b })

  unfoldable pub start_object : Iterator S → LibResult (Bool × Iterator S)
  unfolding iterator_object start_nothing
  start_object it = elim z.rewind [
    | none ↦ iterator_object (record it { next = over_object })
    | some rewind ↦
        let engine = rewind it.engine in
        if z.exception engine
        then start_nothing (record it { engine = z.release engine })
        else iterator_object (record it { next = over_object; engine = engine })
  ]

  unfoldable pub start_properties : Engine → ℕ → Iterator S → LibResult (Bool × Iterator S)
  unfolding start_array start_nothing
  start_properties e o it = elim (e.get_properties o) [
    | none ↦ start_nothing it
    | some b ↦ start_array b it
  ]

  unfoldable pub iterator_init :
      Engine → HandlebarsZval → Iterator S → LibResult (Bool × Iterator S)
  unfolding start_object start_properties start_array start_nothing
  iterator_init e obj it = elim obj.intern [
    | Zval.object o ↦
        if e.instance_of o traversable then start_object it else start_properties e o it
    | Zval.array b ↦ start_array b it
    | _ ↦ start_nothing it
  ]
