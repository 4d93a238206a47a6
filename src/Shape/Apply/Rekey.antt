-- ===== src/Shape/Apply/Rekey.antt =====
-- An UPDATE that changes the primary key.
use tether.Prelude.{
  Bool, true, false, [], Option, none, some, Text, Result, ok, ◌≡◌, refl, sym, ◌∙◌, ◌=t◌, =t_refl,
  ◌≢◌,
}
use tether.Shape.Apply.{is_covered, apply}
use tether.Shape.Apply.Plan.{perform, move_plan, plan_op, plan, apply-eq-perform, def-perform}
use tether.Shape.Apply.Table.{cell, cached-perform}
use tether.Shape.Filter.{match_row}
use tether.Shape.Filter.Matching.{IsBuilt}
use tether.Shape.Instance.{Instance, cached, table_match, check_fingerprint}
use tether.Shape.Key.{pk_key, patch_row, first_non_nil}
use tether.Value.{Runtime, Row}
use tether.Wal.Change.{Change, Op}
use tether.Shape.Apply.Cases.{was_in_cases, update_plan}
use tether.Shape.Apply.Replica.{IsMirrored}

cell_move :
    (key : Text) (b : Bool) (before : Option Row) (row : Row) (v : Option Row)
    → cell (move_plan key b before true (some row)) key v ≡ some row
unfolding cell move_plan
cell_move key true before row v = rw (=t_refl key)
cell_move key false before row v = rw (=t_refl key)

ok_inj : {E A : Type 0} {a b : A} → ◌≡◌ {A = Result E A} (ok a) (ok b) → a ≡ b
ok_inj p = cc

module _ {C : Type 0} (go : Runtime) (inst : Instance C) (built : IsBuilt inst.filter) where
  -- A running shape, with a filter that the package built, applies an update of its table that its
  -- snapshot does not hold and that names no schema. The old row has the key k; the patched row has
  -- another key k' and the filter admits it. Then afterwards the cache and a client's replica are
  -- not mirrored, whatever held before: the new row stands in the cache under the old key.
  pub rekey-not-IsMirrored :
      (ch : Change) (o n : Row) (k k' : Text)
      → inst.log.halted ≡ none
      → table_match inst.def ch ≡ true
      → is_covered go ch inst ≡ false
      → ch.relation_fingerprint ≡ []
      → ch.op ≡ Op.update
      → ch.old ≡ some o
      → ch.new ≡ some n
      → pk_key go inst.def.primary_key (some o) ≡ ok k
      → pk_key go inst.def.primary_key (some (patch_row (cached k inst.cache) (some o) (some n)))
        ≡ ok k'
      → match_row go inst.filter (some (patch_row (cached k inst.cache) (some o) (some n)))
        ≡ ok true
      → k ≢ k'
      → ¬ IsMirrored go (apply go ch inst).0
  rekey-not-IsMirrored ch o n k k' runs m fresh fp op eo en ko kn admits differ mir =
      let p : Row = patch_row (cached k inst.cache) (some o) (some n) in
      let done : apply go ch inst ≡ perform (plan go ch inst) inst =
        apply-eq-perform go ch inst inst runs m fresh (unfold check_fingerprint ◌=t◌ in rw fp) in
      let (b, before, w, q) = was_in_cases go inst built (some o) k in
      let planned : plan go ch inst ≡ move_plan k b before true (some p) =
        unfold plan plan_op in
        rw (op, eo, en)
          (update_plan go inst built (some o) n o k true b before (unfold first_non_nil in refl) ko
            admits w) in
      let there : cached k (apply go ch inst).0.cache ≡ some p =
        rw (done, planned, cached-perform (move_plan k b before true (some p)) k inst)
          (cell_move k b before p (cached k inst.cache)) in
      let keyed : pk_key go (apply go ch inst).0.def.primary_key (some p) ≡ ok k =
        mir.keyed k p there in
      let def : (apply go ch inst).0.def ≡ inst.def =
        rw done (def-perform (plan go ch inst) inst) in
      differ (ok_inj (sym (rw def at keyed) ∙ kn))
