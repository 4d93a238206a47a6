-- ===== src/Shape/Apply/Induction.antt =====
-- Properties that Apply and LoadSnapshot keep, reduced to plans and to the steps between them.
use tether.Prelude.{
  Bool, true, false, not, List, [], ◌=t◌, ◌∷◌, Option, none, some, Text, ok, err, ◌≡◌, refl,
  if◌then◌else◌, Bool-cases, inl, inr,
}
use tether.Shape.Apply.{
  is_covered, apply, apply_checked, apply_running, load_row, load_rows, load_snapshot,
}
use tether.Shape.Error.{Error, halted}
use tether.Shape.Instance.{Instance, Outcome, table_match, check_fingerprint}
use tether.Shape.Log.{Event, halt}
use tether.Value.{Runtime, Row}
use tether.Wal.Change.{Change, Lsn}
use tether.Shape.Apply.Plan.{
  perform, plan_insert, plan, dispatch-eq-perform, load_row-eq-perform, halted-perform,
}

module _ {C : Type 0} (go : Runtime) where
  check_fingerprint_state :
      (fp : Text) (inst : Instance C)
      → (fp' : Text) × ((check_fingerprint fp inst).0 ≡ record inst { fingerprint = fp' })
  unfolding check_fingerprint
  check_fingerprint_state fp inst = elim (Bool-cases (fp =t [])) [
    | inl blank ↦ (inst.fingerprint, rw blank)
    | inr known ↦ elim (Bool-cases (inst.fingerprint =t [])) [
      | inl first ↦ (fp, rw (known, first))
      | inr later ↦ elim (Bool-cases (inst.fingerprint =t fp)) [
        | inl same ↦ (inst.fingerprint, rw (known, later, same))
        | inr drift ↦ (inst.fingerprint, rw (known, later, drift))
      ]
    ]
  ]

  module _ (P : Instance C → Type 0) where
    if_either : (b : Bool) (x y : Outcome C (List Event)) → P x.0 → P y.0 → P (if b then x else y).0
    if_either true x y hx hy = hx
    if_either false x y hx hy = hy

    module _ (ch : Change)
        (print : (fp : Text) (inst : Instance C) → P inst → P (record inst { fingerprint = fp }))
        (stop : (e : Error) (inst : Instance C)
          → P inst
          → P (record inst { log = halt e inst.log }))
        (step : (inst : Instance C)
          → inst.log.halted ≡ none
          → P inst
          → P (perform (plan go ch inst) inst).0) where
      checked_induction :
          (c : Instance C × Option Error)
          → c.0.log.halted ≡ none
          → P c.0
          → P (apply_checked go ch c).0
      unfolding apply_checked plan
      checked_induction (inst, some e) runs h = stop e inst h
      checked_induction (inst, none) runs h =
          rw (dispatch-eq-perform go ch.op ch inst) (step inst runs h)

      -- A property that outlives a new fingerprint, a halt and each plan outlives Apply.
      pub apply_induction : (inst : Instance C) → P inst → P (apply go ch inst).0
      unfolding apply apply_running
      apply_induction inst h =
          (elim inst.log.halted
              as (λ o.
                inst.log.halted ≡ o
                → P
                    (elim o as (λ _. Outcome C (List Event)) [
                      | some e ↦ (inst, err (halted e))
                      | none ↦ apply_running go ch inst
                    ]).0) [
                      | some e ↦ λ _. h
                      | none ↦ λ runs.
                          let c = check_fingerprint ch.relation_fingerprint inst in
                          let done = apply_checked go ch c in
                          let gated : Outcome C (List Event) =
                            if is_covered go ch inst then (inst, ok []) else done in
                          let (fp, e) = check_fingerprint_state ch.relation_fingerprint inst in
                          let hc : P c.0 = rw e (print fp inst h) in
                          if_either (not (table_match inst.def ch)) (inst, ok []) gated h
                            (if_either (is_covered go ch inst) (inst, ok []) done h
                              (checked_induction c (rw e runs) hc))
                    ])
            refl

    -- So does LoadSnapshot, for a property that outlives the writes of inserts.
    module _
        (step : (row : Option Row) (inst : Instance C)
          → inst.log.halted ≡ none
          → P inst
          → P (perform (plan_insert go row inst) inst).0) where
      pub load_rows_induction :
          (rows : List (Option Row)) (inst : Instance C)
          → inst.log.halted ≡ none
          → P inst
          → P (load_rows go rows inst).0
      unfolding load_rows
      load_rows_induction [] inst runs h = h
      load_rows_induction (row ∷ rows) inst runs h =
          let inst' : Instance C = (load_row go row inst).0 in
          let h' : P inst' = rw (load_row-eq-perform go row inst) (step row inst runs h) in
          let runs' : inst'.log.halted ≡ none =
            rw (load_row-eq-perform go row inst, halted-perform (plan_insert go row inst) inst)
              runs in
          let rest : P (load_rows go rows inst').0 = load_rows_induction rows inst' runs' h' in
          elim (load_row go row inst).1
            as (λ e.
              P
                (elim e as (λ _. Instance C × Option Error) [
                  | some x ↦ (inst', some x)
                  | none ↦ load_rows go rows inst'
                ]).0) [ some x ↦ h' | none ↦ rest ]

      pub load_snapshot_induction :
          (lsn : Lsn) (rows : List (Option Row)) (inst : Instance C)
          → P inst
          → P (record inst { snapshot_lsn = lsn; has_snapshot = true })
          → P (load_snapshot go lsn rows inst).0
      unfolding load_snapshot
      load_snapshot_induction lsn rows inst h h' =
          let inst' : Instance C = record inst { snapshot_lsn = lsn; has_snapshot = true } in
          (elim inst.log.halted
              as (λ o.
                inst.log.halted ≡ o
                → P
                    (elim o as (λ _. Instance C × Option Error) [
                      | some e ↦ (inst, some (halted e))
                      | none ↦ load_rows go rows inst'
                    ]).0) [
                      | some e ↦ λ _. h
                      | none ↦ λ runs. load_rows_induction rows inst' runs h'
                    ])
            refl
