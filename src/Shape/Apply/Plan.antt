-- ===== src/Shape/Apply/Plan.antt =====
-- What Apply decides, apart from what it does: a plan that is computed from the change, the filter
-- and the cached row, and carried out in one step.
use tether.Prelude.{
  Bool, true, false, List, [], Option, none, some, Text, ok, err, ◌≡◌, refl, arith,
}
use tether.Shape.Apply.{
  to_delete, was_in, apply_insert, apply_delete, apply_update, dispatch, is_covered, apply,
  load_row, lookup_row,
}
use tether.Shape.Error.{Error, unknown_wal_op}
use tether.Shape.Filter.{match_row}
use tether.Shape.Instance.{Instance, Outcome, store, drop_row, emit, table_match, check_fingerprint}
use tether.Shape.Key.{pk_key, patch_row, first_non_nil}
use tether.Shape.Log.{Event, EventOp, append}
use tether.Value.{Runtime, Row}
use tether.Wal.Change.{Change, Op}

pub data Plan : Type 0 where
  quiet : Plan
  fail : Error → Plan
  -- cache the row under the key and append the event
  write : EventOp → Text → Option Row → Plan
  -- drop the key from the cache and append a delete of the row
  remove : Text → Option Row → Plan

unfoldable pub perform : {C : Type 0} → Plan → Instance C → Outcome C (List Event)
perform quiet inst = (inst, ok [])
perform (fail e) inst = (inst, err e)
perform (write op key row) inst = emit op row (store key row inst)
perform (remove key row) inst = emit EventOp.delete row (drop_row key inst)

unfoldable pub move_plan : Text → Bool → Option Row → Bool → Option Row → Plan
move_plan key true before_row true after_row = write EventOp.update key after_row
move_plan key true before_row false after_row = remove key before_row
move_plan key false before_row true after_row = write EventOp.insert key after_row
move_plan key false before_row false after_row = quiet

-- A plan never halts the log, nor starts it again.
pub halted-perform :
    {C : Type 0} (p : Plan) (inst : Instance C) → (perform p inst).0.log.halted ≡ inst.log.halted
unfolding perform emit append store drop_row
halted-perform quiet inst = refl
halted-perform (fail e) inst = refl
halted-perform (write op key row) inst = ground arith
halted-perform (remove key row) inst = ground arith

pub def-perform : {C : Type 0} (p : Plan) (inst : Instance C) → (perform p inst).0.def ≡ inst.def
unfolding perform emit store drop_row
def-perform quiet inst = refl
def-perform (fail e) inst = refl
def-perform (write op key row) inst = ground arith
def-perform (remove key row) inst = ground arith

module _ {C : Type 0} (go : Runtime) where
  unfoldable pub plan_insert : Option Row → Instance C → Plan
  plan_insert neu inst = elim (match_row go inst.filter neu) [
    | err e ↦ fail e
    | ok false ↦ quiet
    | ok true ↦ elim (pk_key go inst.def.primary_key neu) [
      | err e ↦ fail e
      | ok key ↦ write EventOp.insert key neu
    ]
  ]

  pub apply_insert-eq-perform :
      (neu : Option Row) (inst : Instance C)
      → apply_insert go neu inst ≡ perform (plan_insert neu inst) inst
  unfolding apply_insert plan_insert perform
  apply_insert-eq-perform neu inst = ground arith

  unfoldable pub plan_delete : Option Row → Instance C → Plan
  plan_delete old inst = elim (lookup_row go old inst) [
    | err e ↦ fail e
    | ok (key, hit) ↦ elim (to_delete go inst.filter hit old) [
      | err e ↦ fail e
      | ok false ↦ quiet
      | ok true ↦ remove key (first_non_nil hit old)
    ]
  ]

  apply_delete-eq-perform :
      (old : Option Row) (inst : Instance C)
      → apply_delete go old inst ≡ perform (plan_delete old inst) inst
  unfolding apply_delete plan_delete perform
  apply_delete-eq-perform old inst = ground arith

  unfoldable pub plan_update : Option Row → Option Row → Instance C → Plan
  plan_update old neu inst = elim (lookup_row go (first_non_nil old neu) inst) [
    | err e ↦ fail e
    | ok (key, hit) ↦ elim (was_in go inst.filter hit old) [
      | err e ↦ fail e
      | ok (before_in, before_row) ↦
          elim (match_row go inst.filter (some (patch_row hit old neu))) [
            | err e ↦ fail e
            | ok after_in ↦
                move_plan key before_in before_row after_in (some (patch_row hit old neu))
          ]
    ]
  ]

  apply_update-eq-perform :
      (old neu : Option Row) (inst : Instance C)
      → apply_update go old neu inst ≡ perform (plan_update old neu inst) inst
  unfolding apply_update plan_update move_plan perform
  apply_update-eq-perform old neu inst = ground arith

  unfoldable pub plan_op : Op → Change → Instance C → Plan
  plan_op Op.insert ch inst = plan_insert ch.new inst
  plan_op Op.delete ch inst = plan_delete ch.old inst
  plan_op Op.update ch inst = plan_update ch.old ch.new inst
  plan_op (Op.other_op op) ch inst = fail (unknown_wal_op op)

  unfoldable pub plan : Change → Instance C → Plan
  unfolding plan_op
  plan ch inst = plan_op ch.op ch inst

  pub dispatch-eq-perform :
      (op : Op) (ch : Change) (inst : Instance C)
      → dispatch go op ch inst ≡ perform (plan_op op ch inst) inst
  unfolding dispatch plan_op
  dispatch-eq-perform Op.insert ch inst = apply_insert-eq-perform ch.new inst
  dispatch-eq-perform Op.delete ch inst = apply_delete-eq-perform ch.old inst
  dispatch-eq-perform Op.update ch inst = apply_update-eq-perform ch.old ch.new inst
  dispatch-eq-perform (Op.other_op op) ch inst = unfold perform in refl

  -- LoadSnapshot does with each row what Apply does with an insert.
  pub load_row-eq-perform :
      (row : Option Row) (inst : Instance C)
      → (load_row go row inst).0 ≡ (perform (plan_insert row inst) inst).0
  unfolding load_row plan_insert perform emit
  load_row-eq-perform row inst = ground arith

  -- Apply on a change that is not skipped carries out its plan.
  pub apply-eq-perform :
      (ch : Change) (inst inst' : Instance C)
      → inst.log.halted ≡ none
      → table_match inst.def ch ≡ true
      → is_covered go ch inst ≡ false
      → check_fingerprint ch.relation_fingerprint inst ≡ (inst', none)
      → apply go ch inst ≡ perform (plan ch inst') inst'
  unfolding apply plan
  apply-eq-perform ch inst inst' h t c f = ground (arith, dispatch-eq-perform ch.op ch inst')
