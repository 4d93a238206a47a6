-- ===== src/Shape/Apply.antt =====
-- internal/shape/apply.go: Apply and LoadSnapshot. The engine calls Apply from one goroutine, and
-- LoadSnapshot before it publishes the instance, so each method is one step.
pub mod Plan
pub mod Cases
pub mod Induction
pub mod Isolation
pub mod Replica
pub mod Rekey
pub mod Table
mod Tests
use tether.Prelude.{
  ℕ, Bool, true, false, not, ◌&&◌, List, [], ◌∷◌, ◌++◌, Option, none, some, Text, txt, ◌=t◌, ◌==◌,
  leb, Result, ok, err, if◌then◌else◌, Dict, lookup, insert, erase, map,
}
use tether.Shape.Error.{Error, schema_drift, halted, unknown_wal_op, nil_bind}
use tether.Shape.Filter.{Filter, match_row}
use tether.Shape.Key.{pk_key, patch_row, first_non_nil}
use tether.Shape.Log
use tether.Shape.Log.{Log, Event, EventOp, new_log, append, halt}
use tether.Value.{Runtime, Row, clone_row}
use tether.Wal.Change.{Change, Op, Lsn}
use tether.Shape.Instance.{
  Definition, Cache, Instance, Outcome, cached, store, drop_row, emit, table_match,
  check_fingerprint,
}

module _ (go : Runtime) where
  -- Whether applyDelete goes on, by the cached row and the old row of the change.
  unfoldable pub to_delete : Filter → Option Row → Option Row → Result Error Bool
  to_delete f (some c) old = ok true
  to_delete f none none = ok false
  to_delete f none (some o) = match_row go f (some o)

  -- Whether the row was in the shape before an update, and beforeRow.
  unfoldable pub was_in : Filter → Option Row → Option Row → Result Error (Bool × Option Row)
  was_in f (some c) old = ok (true, some c)
  was_in f none none = ok (false, none)
  was_in f none (some o) = elim (match_row go f (some o)) [
    | err e ↦ err e
    | ok b ↦ ok (b, if b then some o else none)
  ]

module _ {C : Type 0} (go : Runtime) where
  -- Instance.lookup: the key of a row and the row that is cached under it.
  unfoldable pub lookup_row : Option Row → Instance C → Result Error (Text × Option Row)
  lookup_row none inst = ok ([], none)
  lookup_row (some r) inst = elim (pk_key go inst.def.primary_key (some r)) [
    | err e ↦ err e
    | ok key ↦ ok (key, cached key inst.cache)
  ]

  unfoldable pub apply_insert : Option Row → Instance C → Outcome C (List Event)
  unfolding store emit
  apply_insert neu inst = elim (match_row go inst.filter neu) [
    | err e ↦ (inst, err e)
    | ok matches ↦
        if not matches then (inst, ok []) else elim (pk_key go inst.def.primary_key neu) [
          | err e ↦ (inst, err e)
          | ok key ↦ emit EventOp.insert neu (store key neu inst)
        ]
  ]

  unfoldable pub apply_delete : Option Row → Instance C → Outcome C (List Event)
  unfolding lookup_row to_delete first_non_nil drop_row emit
  apply_delete old inst = elim (lookup_row old inst) [
    | err e ↦ (inst, err e)
    | ok (key, hit) ↦ elim (to_delete go inst.filter hit old) [
      | err e ↦ (inst, err e)
      | ok goes ↦
          if not goes
          then (inst, ok [])
          else emit EventOp.delete (first_non_nil hit old) (drop_row key inst)
    ]
  ]

  -- The switch of applyUpdate.
  move_row : Text → Bool → Option Row → Bool → Option Row → Instance C → Outcome C (List Event)
  unfolding store drop_row emit
  move_row key true before_row true after_row inst =
      emit EventOp.update after_row (store key after_row inst)
  move_row key true before_row false after_row inst =
      emit EventOp.delete before_row (drop_row key inst)
  move_row key false before_row true after_row inst =
      emit EventOp.insert after_row (store key after_row inst)
  move_row key false before_row false after_row inst = (inst, ok [])

  unfoldable pub apply_update : Option Row → Option Row → Instance C → Outcome C (List Event)
  unfolding lookup_row first_non_nil was_in patch_row move_row
  apply_update old neu inst = elim (lookup_row (first_non_nil old neu) inst) [
    | err e ↦ (inst, err e)
    | ok (key, hit) ↦ elim (was_in go inst.filter hit old) [
      | err e ↦ (inst, err e)
      | ok (before_in, before_row) ↦
          let after_row = some (patch_row hit old neu) in
          elim (match_row go inst.filter after_row) [
            | err e ↦ (inst, err e)
            | ok after_in ↦ move_row key before_in before_row after_in after_row inst
          ]
    ]
  ]

  -- The switch on the operation at the end of Apply.
  unfoldable pub dispatch : Op → Change → Instance C → Outcome C (List Event)
  dispatch Op.insert ch inst = apply_insert ch.new inst
  dispatch Op.delete ch inst = apply_delete ch.old inst
  dispatch Op.update ch inst = apply_update ch.old ch.new inst
  dispatch (Op.other_op op) ch inst = (inst, err (unknown_wal_op op))

  -- The change is covered by the snapshot: its LSN is known and not above the handoff LSN.
  unfoldable pub is_covered : Change → Instance C → Bool
  is_covered ch inst =
      inst.has_snapshot && not (ch.commit_lsn == 0) && leb ch.commit_lsn inst.snapshot_lsn

  -- The end of Apply, behind the check of the fingerprint.
  unfoldable pub apply_checked : Change → Instance C × Option Error → Outcome C (List Event)
  apply_checked ch (inst, some e) = (record inst { log = halt e inst.log }, err e)
  apply_checked ch (inst, none) = dispatch ch.op ch inst

  -- Apply on a log that has not halted.
  unfoldable pub apply_running : Change → Instance C → Outcome C (List Event)
  apply_running ch inst =
      if not (table_match inst.def ch)
      then (inst, ok [])
      else if is_covered ch inst
      then (inst, ok [])
      else apply_checked ch (check_fingerprint ch.relation_fingerprint inst)

  unfoldable pub apply : Change → Instance C → Outcome C (List Event)
  unfolding apply_running apply_checked
  apply ch inst = elim inst.log.halted [
    | some e ↦ (inst, err (halted e))
    | none ↦ apply_running ch inst
  ]

  -- One row of the loop of LoadSnapshot: the new state, and the error that ends the loop.
  unfoldable pub load_row : Option Row → Instance C → Instance C × Option Error
  unfolding store
  load_row row inst = elim (match_row go inst.filter row) [
    | err e ↦ (inst, some e)
    | ok matches ↦ if not matches then (inst, none) else elim (pk_key go inst.def.primary_key row) [
      | err e ↦ (inst, some e)
      | ok key ↦
          let inst' = store key row inst in
          let (l, r) = append EventOp.insert inst.def.table row inst'.log in
          elim r [
            | err e ↦ (record inst' { log = l }, some e)
            | ok ev ↦ (record inst' { log = l }, none)
          ]
    ]
  ]

  unfoldable pub load_rows : List (Option Row) → Instance C → Instance C × Option Error
  load_rows [] inst = (inst, none)
  load_rows (row ∷ rows) inst =
      let (inst', e) = load_row row inst in
      let rest = load_rows rows inst' in elim e [ some x ↦ (inst', some x) | none ↦ rest ]

  -- LoadSnapshot
  unfoldable pub load_snapshot : Lsn → List (Option Row) → Instance C → Instance C × Option Error
  unfolding load_rows
  load_snapshot lsn rows inst = elim inst.log.halted [
    | some e ↦ (inst, some (halted e))
    | none ↦ load_rows rows (record inst { snapshot_lsn = lsn; has_snapshot = true })
  ]
