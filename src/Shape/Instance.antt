-- ===== src/Shape/Instance.antt =====
-- internal/shape/apply.go: the state of a live shape for one principal, and what its methods read
-- and write of it.
pub mod Laws
use tether.Prelude.{
  Bool, false, ◌&&◌, List, [], ◌∷◌, Option, none, some, Text, txt, ◌=t◌, Result, ok, err,
  if◌then◌else◌, Dict, lookup, insert, erase, map,
}
use tether.Shape.Error.{Error, schema_drift, nil_bind}
use tether.Shape.Filter.{Filter}
use tether.Shape.Log.{Log, Event, EventOp, new_log, append}
use tether.Value.{Row, clone_row}
use tether.Wal.Change.{Change, Lsn}

-- `bind` maps the claims of the host to a filter; `none` is a nil function.
pub record Definition (C : Type 0) : Type 0 where
  pub name : Text
  pub schema : Text
  pub table : Text
  pub primary_key : List Text
  pub bind : Option (C → Result Error Filter)

-- The rows in the shape by key. A Go map may hold a nil row, so an entry is an optional row.
abbrev pub Cache : Type 0
Cache = Dict (Option Row)

pub record Instance (C : Type 0) : Type 0 where
  pub def : Definition C
  pub filter : Filter
  pub log : Log
  pub fingerprint : Text
  pub snapshot_lsn : Lsn
  pub has_snapshot : Bool
  pub cache : Cache

-- A method's new state with its result or error.
abbrev pub Outcome : Type 0 → Type 0 → Type 0
Outcome C A = Instance C × Result Error A

-- inst.cache[key], cloned; nil if there is none
unfoldable pub cached : Text → Cache → Option Row
unfolding clone_row
cached key cache = elim (lookup key cache) [ none ↦ none | some row ↦ clone_row row ]

module _ {C : Type 0} where
  -- The defaults that NewInstance and Register fill in.
  unfoldable pub with_defaults : Definition C → Definition C
  with_defaults def = record def {
    schema = if def.schema =t [] then txt "public" else def.schema;
    table = if def.table =t [] then def.name else def.table;
    primary_key = elim def.primary_key [ [] ↦ txt "id" ∷ [] | k ∷ ks ↦ k ∷ ks ];
  }

  -- NewInstance
  unfoldable pub new_instance : Definition C → C → Result Error (Instance C)
  unfolding with_defaults
  new_instance def claims = elim def.bind [
    | none ↦ err nil_bind
    | some bind ↦ elim (bind claims) [
      | err e ↦ err e
      | ok f ↦ ok (record {
        def = with_defaults def;
        filter = f;
        log = new_log;
        fingerprint = [];
        snapshot_lsn = 0;
        has_snapshot = false;
        cache = [];
      })
    ]
  ]

  -- inst.cache[key] = cloneRow(row)
  unfoldable pub store : Text → Option Row → Instance C → Instance C
  unfolding clone_row
  store key row inst = record inst { cache = insert key (clone_row row) inst.cache }

  -- delete(inst.cache, key)
  unfoldable pub drop_row : Text → Instance C → Instance C
  drop_row key inst = record inst { cache = erase key inst.cache }

  -- The call of Log.Append at the end of a branch, and the slice of its event.
  unfoldable pub emit : EventOp → Option Row → Instance C → Outcome C (List Event)
  emit op row inst =
      let (l, r) = append op inst.def.table row inst.log in
      elim r [
        | err e ↦ (record inst { log = l }, err e)
        | ok ev ↦ (record inst { log = l }, ok (ev ∷ []))
      ]

  unfoldable pub table_match : Definition C → Change → Bool
  table_match def ch =
      let schema = if ch.schema =t [] then txt "public" else ch.schema in
      schema =t def.schema && ch.table =t def.table

  -- checkFingerprint: the first fingerprint that is not empty is recorded.
  unfoldable pub check_fingerprint : Text → Instance C → Instance C × Option Error
  check_fingerprint fp inst =
      if fp =t []
      then (inst, none)
      else if inst.fingerprint =t []
      then (record inst { fingerprint = fp }, none)
      else if inst.fingerprint =t fp
      then (inst, none)
      else (inst, some (schema_drift inst.def.name))

  -- Materialized: the rows of the cache, in the order of the map's iteration.
  unfoldable pub materialized : Instance C → List (Option Row)
  materialized inst = map (λ e. clone_row e.1) inst.cache

  -- SnapshotLSN
  unfoldable pub get_snapshot_lsn : Instance C → Lsn × Bool
  get_snapshot_lsn inst = (inst.snapshot_lsn, inst.has_snapshot)
