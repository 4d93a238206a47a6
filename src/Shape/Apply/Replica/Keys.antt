-- ===== src/Shape/Apply/Replica/Keys.antt =====
-- The keys under which Apply writes and removes rows, and the theorem on the replica.
use tether.Prelude.{
  true, List, [], ◌∷◌, Option, none, some, Text, ok, ◌≡◌, ◌≢◌, refl, arith, inl, inr, All, is_some,
  Option-cases, Result-cases, ◌∙◌,
}
use tether.Shape.Apply.{to_delete, was_in, lookup_row, apply, load_snapshot}
use tether.Shape.Apply.Induction.{apply_induction, load_snapshot_induction}
use tether.Shape.Apply.Plan.{
  write, remove, plan_insert, plan_delete, plan_update, move_plan, plan_op, plan, def-perform,
}
use tether.Shape.Instance.{Instance, cached}
use tether.Shape.Key.{pk_key, patch_row, first_non_nil}
use tether.Shape.Key.Laws.{column-patch_row, pk_key-cong, pk_key_present}
use tether.Shape.Log.{EventOp}
use tether.Shape.Log.Offsets.{events-halt}
use tether.Value.{Runtime, Row, column}
use tether.Wal.Change.{Change, Op, Lsn}
use tether.Shape.Apply.Replica.{IsMirrored, KeysRight, perform-IsMirrored}

-- An update that leaves the key alone: it has a new row, whose values in the columns of the key
-- are those of the old row, if there is one.
abbrev pub KeepsKey : List Text → Change → Type 0
KeepsKey pk ch =
    ch.op ≡ Op.update
    → (n : Row) × (ch.new ≡ some n)
      × ((o : Row) → ch.old ≡ some o → All (λ c. column c (some n) ≡ column c (some o)) pk)

patched_columns :
    (pk : List Text) (hit old : Option Row) (n r : Row)
    → All (λ c. is_some (column c (some r)) ≡ true) pk
    → All (λ c. column c (some n) ≡ column c (some r)) pk
    → All (λ c. column c (some (patch_row hit old (some n))) ≡ column c (some r)) pk
patched_columns [] hit old n r p e = tt
patched_columns (c ∷ pk) hit old n r p e =
    (ground (arith, column-patch_row c hit old (some n)), patched_columns pk hit old n r p.1 e.1)

All-refl : (pk : List Text) (n : Row) → All (λ c. column c (some n) ≡ column c (some n)) pk
All-refl [] n = tt
All-refl (c ∷ pk) n = (refl, All-refl pk n)

patched_key :
    (go : Runtime) (pk : List Text) (hit old : Option Row) (n : Row) (key : Text)
    → ((o : Row) → old ≡ some o → All (λ c. column c (some n) ≡ column c (some o)) pk)
    → pk_key go pk (first_non_nil old (some n)) ≡ ok key
    → pk_key go pk (some (patch_row hit old (some n))) ≡ ok key
unfolding first_non_nil
patched_key go pk hit none n key same k =
    pk_key-cong go pk _ _
      (patched_columns pk hit none n n (pk_key_present go pk (some n) key k) (All-refl pk n))
    ∙ k
patched_key go pk hit (some o) n key same k =
    pk_key-cong go pk _ _
      (patched_columns pk hit (some o) n o (pk_key_present go pk (some o) key k) (same o refl))
    ∙ k

module _ {C : Type 0} (go : Runtime) where
  plan_insert-KeysRight :
      (neu : Option Row) (inst : Instance C)
      → KeysRight go inst.def.primary_key (plan_insert go neu inst)
  unfolding plan_insert
  plan_insert-KeysRight neu inst =
      ((λ op key row e. (ground arith, λ d. ground arith)), λ key row e. ground arith)

  plan_delete-KeysRight :
      (old : Option Row) (inst : Instance C)
      → IsMirrored go inst
      → KeysRight go inst.def.primary_key (plan_delete go old inst)
  unfolding plan_delete lookup_row to_delete first_non_nil
  plan_delete-KeysRight none inst h = ((λ op key row e. cc), λ key row e. cc)
  plan_delete-KeysRight (some o) inst h =
      elim (Result-cases (pk_key go inst.def.primary_key (some o))) [
        | inr (x, e) ↦ ((λ op key row p. ground arith), λ key row p. ground arith)
        | inl (k, e) ↦
            ((λ op key row p. ground arith), λ key row p. ground (arith, cached_key k key row e p))
      ]
    where
      cached_key :
          (k key : Text) (row : Option Row)
          → pk_key go inst.def.primary_key (some o) ≡ ok k
          → plan_delete go (some o) inst ≡ remove key row
          → pk_key go inst.def.primary_key row ≡ ok key
      cached_key k key row e p = elim (Option-cases (cached k inst.cache)) [
        | inl miss ↦ ground arith
        | inr (c, hit) ↦ ground (arith, h.keyed k c)
      ]

  -- What an update writes or removes, when the key of its row is known.
  module _ (old : Option Row) (r n : Row) (inst : Instance C) (k : Text)
      (first : first_non_nil old (some n) ≡ some r)
      (has_key : pk_key go inst.def.primary_key (some r) ≡ ok k)
      (patched : pk_key go inst.def.primary_key
          (some (patch_row (cached k inst.cache) old (some n)))
        ≡ ok k) where
    update_writes :
        (op : EventOp) (key : Text) (row : Option Row)
        → plan_update go old (some n) inst ≡ write op key row
        → (pk_key go inst.def.primary_key row ≡ ok key) × (op ≢ EventOp.delete)
    unfolding plan_update move_plan lookup_row
    update_writes op key row e = (ground arith, λ d. ground arith)

    update_removes :
        IsMirrored go inst
        → (key : Text) (row : Option Row) → plan_update go old (some n) inst ≡ remove key row
        → pk_key go inst.def.primary_key row ≡ ok key
    unfolding plan_update move_plan lookup_row was_in first_non_nil
    update_removes h key row e = elim (Option-cases (cached k inst.cache)) [
      | inl miss ↦ elim (Option-cases old) [ inl blank ↦ ground arith | inr (o, e') ↦ ground arith ]
      | inr (c, hit) ↦ ground (arith, h.keyed k c)
    ]

  plan_update-KeysRight :
      (old : Option Row) (r n : Row) (inst : Instance C)
      → first_non_nil old (some n) ≡ some r
      → ((o : Row)
          → old ≡ some o
          → All (λ c. column c (some n) ≡ column c (some o)) inst.def.primary_key)
      → IsMirrored go inst
      → KeysRight go inst.def.primary_key (plan_update go old (some n) inst)
  plan_update-KeysRight old r n inst first same h =
      elim (Result-cases (pk_key go inst.def.primary_key (some r))) [
        | inr (x, e) ↦ (
          (λ op key row p. absurd (unfold plan_update lookup_row in ground arith)),
          λ key row p. absurd (unfold plan_update lookup_row in ground arith),
        )
        | inl (k, e) ↦
            let patched =
              patched_key go inst.def.primary_key (cached k inst.cache) old n k same (rw first e) in
            (
              update_writes old r n inst k first e patched,
              update_removes old r n inst k first e patched h,
            )
      ]

  plan_op-KeysRight :
      (op : Op) (ch : Change) (inst : Instance C)
      → (op ≡ Op.update
          → (n : Row) × (ch.new ≡ some n)
            × ((o : Row)
                → ch.old ≡ some o
                → All (λ c. column c (some n) ≡ column c (some o)) inst.def.primary_key))
      → IsMirrored go inst
      → KeysRight go inst.def.primary_key (plan_op go op ch inst)
  unfolding plan_op
  plan_op-KeysRight Op.insert ch inst keeps h = plan_insert-KeysRight ch.new inst
  plan_op-KeysRight Op.delete ch inst keeps h = plan_delete-KeysRight ch.old inst h
  plan_op-KeysRight (Op.other_op name) ch inst keeps h = ((λ op key row e. cc), λ key row e. cc)
  plan_op-KeysRight Op.update ch inst keeps h =
      let (n, e, same) = keeps refl in
      rw e (elim (Option-cases ch.old) [
        | inl blank ↦
            plan_update-KeysRight ch.old n n inst (unfold first_non_nil in rw blank) same h
        | inr (o, e') ↦ plan_update-KeysRight ch.old o n inst (unfold first_non_nil in rw e') same h
      ])

  -- Apply keeps every client's replica equal to the cache, provided the change, if it is an update,
  -- leaves the primary key alone: if the rows that a client has after applying the whole log are
  -- the cached rows, each under its own key, then so it is after Apply, whether Apply skips the
  -- change, fails, halts the shape or appends an event.
  pub apply-IsMirrored :
      (ch : Change) (inst : Instance C)
      → KeepsKey inst.def.primary_key ch
      → IsMirrored go inst
      → IsMirrored go (apply go ch inst).0
  apply-IsMirrored ch inst keeps h =
      (apply_induction {C = C} go (λ i. KeepsKey i.def.primary_key ch × IsMirrored go i) ch
        (λ fp i h. (h.0, record { keyed = h.1.keyed; mirrored = h.1.mirrored }))
        (λ e i h. (
          h.0,
          record {
            keyed = h.1.keyed;
            mirrored = λ key. rw (events-halt e i.log) (h.1.mirrored key);
          },
        ))
        (λ i runs h. (
          rw (def-perform (plan go ch i) i) h.0,
          perform-IsMirrored go (plan go ch i) i runs
              (unfold plan in plan_op-KeysRight ch.op ch i h.0 h.1) h.1,
        ))
        inst (keeps, h)).1

  -- LoadSnapshot keeps every client's replica equal to the cache, each row under its own key,
  -- whatever rows it is given and wherever it fails.
  pub load_snapshot-IsMirrored :
      (lsn : Lsn) (rows : List (Option Row)) (inst : Instance C)
      → IsMirrored go inst
      → IsMirrored go (load_snapshot go lsn rows inst).0
  load_snapshot-IsMirrored lsn rows inst h =
      load_snapshot_induction go (IsMirrored go)
        (λ row i runs h.
          perform-IsMirrored go (plan_insert go row i) i runs (plan_insert-KeysRight row i) h)
        lsn rows inst h (record { keyed = h.keyed; mirrored = h.mirrored })
