-- ===== src/Shape/Apply/Table/Refine.antt =====
-- Apply refines the specification.
use tether.Prelude.{
  Bool, true, false, Option, none, some, Text, ok, ◌≡◌, refl, ◌∙◌, if◌then◌else◌, ◌=t◌, =t_iff,
  Bool-cases, Option-cases, inl, inr,
}
use tether.Shape.Apply.Cases.{insert_plan, delete_plan, was_in_cases, update_plan}
use tether.Shape.Apply.Plan.{
  perform, plan_insert, plan_delete, plan_update, move_plan, plan_op, plan,
}
use tether.Shape.Apply.Table.{
  Table, put_row, commit, commit_op, put_keyed_ok, Covers, Describes, DescribesInsert,
  DescribesDelete, DescribesUpdate, Agrees, Represents, cell, cached-perform, filter-perform,
}
use mathlib.Core.Path.{subst}
use tether.Shape.Filter.{Filter, match_row}
use tether.Shape.Filter.Matching.{SameRow, IsBuilt, match_row-SameRow, match_row_total}
use tether.Shape.Instance.{Instance, cached}
use tether.Shape.Key.{pk_key, patch_row, first_non_nil}
use tether.Shape.Key.Laws.{column-patch_row}
use tether.Value.{Runtime, Row, column}
use tether.Wal.Change.{Change, Op}

none_of_Agrees : (go : Runtime) (f : Filter) (v : Option Row) → Agrees go f v none → v ≡ none
none_of_Agrees go f none h = refl
none_of_Agrees go f (some c) h = absurd h

-- A new row that leaves nothing out is what the patch makes of it.
patched_same :
    (go : Runtime) (f : Filter) (hit old : Option Row) (n r : Row)
    → Agrees go f hit (some r)
    → Covers n r
    → ((o : Row) → old ≡ some o → Covers n o)
    → SameRow (patch_row hit old (some n)) n
patched_same go f hit old n r a w ow c = elim (Option-cases (column c (some n))) [
  | inr (v, e) ↦ rw (column-patch_row c hit old (some n), e)
  | inl e ↦ rw (column-patch_row c hit old (some n), e, at_hit hit a (w c e), at_old old ow e)
]
  where
    at_hit :
        (hit : Option Row)
        → Agrees go f hit (some r)
        → column c (some r) ≡ none
        → column c hit ≡ none
    at_hit none a e = unfold column in refl
    at_hit (some x) a e = a.0 c ∙ e

    at_old :
        (old : Option Row)
        → ((o : Row) → old ≡ some o → Covers n o)
        → column c (some n) ≡ none
        → column c old ≡ none
    at_old none ow e = unfold column in refl
    at_old (some o) ow e = ow o refl c e

module _ {C : Type 0} (go : Runtime) (inst : Instance C) (built : IsBuilt inst.filter) (t : Table)
    (h : Represents go inst t) where
  -- A row put under a key, in the cache and in the table alike.
  set-Agrees :
      (key j : Text) (a b : Option Row)
      → Agrees go inst.filter a b
      → Agrees go inst.filter (if key =t j then a else cached j inst.cache) (put_row key b t j)
  set-Agrees key j a b agree =
      elim (key =t j)
        as (λ e.
          Agrees go inst.filter (if e then a else cached j inst.cache) (if e then b else t j)) [
            | true ↦ agree
            | false ↦ h j
          ]

  -- A row put into the table alone, where the cache agrees with it already.
  keep-Agrees :
      (key j : Text) (b : Option Row)
      → Agrees go inst.filter (cached key inst.cache) b
      → Agrees go inst.filter (cached j inst.cache) (put_row key b t j)
  keep-Agrees key j b agree = elim (Bool-cases (key =t j)) [
    | inl e ↦
        rw e (subst (λ k. Agrees go inst.filter (cached k inst.cache) b) ((=t_iff key j).0 e) agree)
    | inr e ↦ rw e (h j)
  ]

  move-Agrees :
      (key j : Text) (before b : Bool) (row : Option Row) (p n : Row)
      → (before ≡ false → cached key inst.cache ≡ none)
      → SameRow p n
      → match_row go inst.filter (some n) ≡ ok b
      → Agrees go inst.filter
          (cell (move_plan key before row b (some p)) j (cached j inst.cache))
          (put_row key (some n) t j)
  unfolding cell move_plan
  move-Agrees key j true true row p n q same m = set-Agrees key j (some p) (some n) (same, m)
  move-Agrees key j false true row p n q same m = set-Agrees key j (some p) (some n) (same, m)
  move-Agrees key j true false row p n q same m = set-Agrees key j none (some n) m
  move-Agrees key j false false row p n q same m = keep-Agrees key j (some n) (rw (q refl) m)

  insert-cell :
      (ch : Change)
      → DescribesInsert go inst.def.primary_key ch t
      → (j : Text)
      → Agrees go inst.filter
          (cell (plan_insert go ch.new inst) j (cached j inst.cache))
          (commit_op go inst.def.primary_key Op.insert ch t j)
  unfolding commit_op
  insert-cell ch d j =
      rw (d.new, put_keyed_ok _ d.key (some d.n) t d.keyed)
        (by_match (match_row_total go inst.filter (some d.n) built))
    where
      by_match :
          (b : Bool) × (match_row go inst.filter (some d.n) ≡ ok b)
          → Agrees go inst.filter
              (cell (plan_insert go (some d.n) inst) j (cached j inst.cache))
              (put_row d.key (some d.n) t j)
      by_match (true, m) =
          rw (insert_plan go inst built d.n d.key true d.keyed m)
            (unfold cell in set-Agrees d.key j (some d.n) (some d.n) (λ c. refl, m))
      by_match (false, m) = rw (insert_plan go inst built d.n d.key false d.keyed m) (
          unfold cell in
          keep-Agrees d.key j (some d.n) (
            rw (none_of_Agrees go inst.filter (cached d.key inst.cache) (rw d.fresh at (h d.key)))
              m))

  delete_cell :
      (ch : Change)
      → DescribesDelete go inst.def.primary_key ch t
      → (j : Text)
      → Agrees go inst.filter
          (cell (plan_delete go ch.old inst) j (cached j inst.cache))
          (commit_op go inst.def.primary_key Op.delete ch t j)
  unfolding commit_op
  delete_cell ch d j =
      rw (d.old, put_keyed_ok _ d.key none t d.keyed)
        (elim (delete_plan go inst built d.o d.key d.keyed) [
          | inl (row, e) ↦ rw e (unfold cell in set-Agrees d.key j none none tt)
          | inr (miss, e) ↦ rw (e j (cached j inst.cache)) (keep-Agrees d.key j none (rw miss tt))
        ])

  update_cell :
      (ch : Change)
      → DescribesUpdate go inst.def.primary_key ch t
      → (j : Text)
      → Agrees go inst.filter
          (cell (plan_update go ch.old ch.new inst) j (cached j inst.cache))
          (commit_op go inst.def.primary_key Op.update ch t j)
  unfolding commit_op
  update_cell ch d j =
      let hit = cached d.key inst.cache in
      let p : Row = patch_row hit ch.old (some d.n) in
      let same : SameRow p d.n =
        patched_same go inst.filter hit ch.old d.n d.r (rw d.present at (h d.key)) d.whole
          d.old_whole in
      let (b, m) = match_row_total go inst.filter (some d.n) built in
      let (before, row, w, q) = was_in_cases go inst built ch.old d.key in
      let (r, first, k) = the_first ch.old d.old_keyed in
      rw
        (
          d.new,
          put_keyed_ok _ d.key (some d.n) t d.keyed,
          update_plan go inst built ch.old d.n r d.key b before row first k
              (match_row-SameRow go inst.filter p d.n same ∙ m) w,
        )
        (move-Agrees d.key j before b row p d.n q same m)
    where
      the_first :
          (old : Option Row)
          → ((o : Row) → old ≡ some o → pk_key go inst.def.primary_key (some o) ≡ ok d.key)
          → (r : Row) × (first_non_nil old (some d.n) ≡ some r)
            × (pk_key go inst.def.primary_key (some r) ≡ ok d.key)
      the_first none k = (d.n, unfold first_non_nil in refl, d.keyed)
      the_first (some o) k = (o, unfold first_non_nil in refl, k o refl)

  op_cell :
      (op : Op) (ch : Change)
      → Describes go inst.def.primary_key op ch t
      → (j : Text)
      → Agrees go inst.filter
          (cell (plan_op go op ch inst) j (cached j inst.cache))
          (commit_op go inst.def.primary_key op ch t j)
  unfolding plan_op
  op_cell Op.insert ch d = insert-cell ch d
  op_cell Op.delete ch d = delete_cell ch d
  op_cell Op.update ch d = update_cell ch d
  op_cell (Op.other_op name) ch d = absurd d

  pub perform-Represents :
      (ch : Change)
      → Describes go inst.def.primary_key ch.op ch t
      → Represents go (perform (plan go ch inst) inst).0 (commit go inst.def.primary_key ch t)
  unfolding plan commit
  perform-Represents ch d j =
      rw
        (
          cached-perform (plan_op go ch.op ch inst) j inst,
          filter-perform (plan_op go ch.op ch inst) inst,
        )
        (op_cell ch.op ch d j)
