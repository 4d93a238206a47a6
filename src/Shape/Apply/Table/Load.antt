-- ===== src/Shape/Apply/Table/Load.antt =====
-- LoadSnapshot puts a new shape into a state that represents the table.
use tether.Prelude.{
  true, false, List, [], ◌∷◌, Option, none, some, Text, ok, ◌≡◌, refl, sym, ap, ◌∙◌, inl, inr, ◌⊎◌,
  Option-cases, arith,
}
use tether.Shape.Apply.{load_row, load_rows, load_snapshot}
use tether.Shape.Apply.Induction.{load_rows_induction}
use tether.Shape.Apply.Plan.{
  plan, plan_insert, perform, load_row-eq-perform, def-perform, halted-perform,
}
use tether.Shape.Apply.Table.{
  Table, put_keyed, commit, commit_op, DescribesInsert, Agrees, Represents, filter-perform,
  has_snapshot-perform, snapshot_lsn-perform, fingerprint-perform,
}
use tether.Shape.Apply.Table.Refine.{perform-Represents}
use tether.Shape.Apply.Table.Handoff.{Feeds, advance_all, apply_all, apply_all-Represents}
use tether.Shape.Filter.{Filter, match_row}
use tether.Shape.Filter.Matching.{IsBuilt}
use tether.Shape.Instance.{Instance, cached}
use tether.Shape.Instance.Laws.{cached-nil}
use tether.Shape.Key.{pk_key}
use tether.Value.{Runtime, Row}
use tether.Wal.Change.{Change, Op, Lsn}

-- A row as the insert that would bring it.
abbrev pub insert_of : Option Row → Change
insert_of row = record {
  schema = [];
  table = [];
  op = Op.insert;
  relation_fingerprint = [];
  commit_lsn = 0;
  old = none;
  new = row;
}

-- The table of the rows, over another.
unfoldable pub with_rows : Runtime → List Text → List (Option Row) → Table → Table
with_rows go pk [] t = t
with_rows go pk (row ∷ rows) t = with_rows go pk rows (put_keyed (pk_key go pk row) row t)

-- Each row has a key, that of no row before it.
abbrev pub Listed : Runtime → List Text → List (Option Row) → Table → Type 0
Listed go pk [] t = Unit
Listed go pk (row ∷ rows) t =
    DescribesInsert go pk (insert_of row) t × Listed go pk rows (put_keyed (pk_key go pk row) row t)

abbrev pub no_rows : Table
no_rows key = none

-- The rows are those of the table that the filter admits: at each key, the table's row, or none
-- where the table has none, or one that the filter does not admit.
abbrev LeftOut : Runtime → Filter → Option Row → Type 0
LeftOut go f b = (r : Row) × (b ≡ some r) × (match_row go f (some r) ≡ ok false)

abbrev pub Selected : Runtime → Filter → Table → Table → Type 0
Selected go f chosen t =
    (key : Text) → (chosen key ≡ t key) ⊎ ((chosen key ≡ none) × LeftOut go f (t key))

Agrees-selected :
    (go : Runtime) (f : Filter) (v a b : Option Row)
    → Agrees go f v a
    → ((a ≡ b) ⊎ ((a ≡ none) × LeftOut go f b))
    → Agrees go f v b
Agrees-selected go f v a b h (inl e) = rw e at h
Agrees-selected go f none a b h (inr (e, left)) = rw (left.1) (left.2)
Agrees-selected go f (some c) a b h (inr (e, left)) = absurd (rw e at h)

module _ {C : Type 0} (go : Runtime) where
  row-Represents :
      (row : Option Row) (inst : Instance C) (t : Table)
      → IsBuilt inst.filter
      → DescribesInsert go inst.def.primary_key (insert_of row) t
      → Represents go inst t
      → Represents go
          (load_row go row inst).0
          (put_keyed (pk_key go inst.def.primary_key row) row t)
  row-Represents row inst t built d h =
      let h' : Represents go (perform (plan_insert go row inst) inst).0
          (put_keyed (pk_key go inst.def.primary_key row) row t) =
        unfold plan commit commit_op in perform-Represents go inst built t h (insert_of row) d in
      rw (load_row-eq-perform go row inst) h'

  load_row-fixed :
      (row : Option Row) (inst : Instance C)
      → ((load_row go row inst).0.def ≡ inst.def) × ((load_row go row inst).0.filter ≡ inst.filter)
  load_row-fixed row inst =
      let p = plan_insert go row inst in
      (
        ap (λ i. i.def) (load_row-eq-perform go row inst) ∙ def-perform p inst,
        ap (λ i. i.filter) (load_row-eq-perform go row inst) ∙ filter-perform p inst,
      )

  rows_go :
      (row : Option Row) (rows : List (Option Row)) (inst : Instance C)
      → (load_rows go (row ∷ rows) inst).1 ≡ none
      → ((load_row go row inst).1 ≡ none)
        × (load_rows go (row ∷ rows) inst ≡ load_rows go rows (load_row go row inst).0)
  unfolding load_rows
  rows_go row rows inst done = elim (Option-cases (load_row go row inst).1) [
    | inl fine ↦ (fine, ground (arith, fine))
    | inr (x, bad) ↦ absurd (ground (arith, bad))
  ]

  rows-Represents :
      (rows : List (Option Row)) (inst : Instance C) (t : Table)
      → IsBuilt inst.filter
      → Listed go inst.def.primary_key rows t
      → (load_rows go rows inst).1 ≡ none
      → Represents go inst t
      → Represents go (load_rows go rows inst).0 (with_rows go inst.def.primary_key rows t)
  unfolding with_rows
  rows-Represents [] inst t built listed done h = unfold load_rows in h
  rows-Represents (row ∷ rows) inst t built (d, listed) done h =
      let (fine, same) = rows_go row rows inst done in
      let (def, filter) = load_row-fixed row inst in
      let inst' = (load_row go row inst).0 in
      let t' = put_keyed (pk_key go inst.def.primary_key row) row t in
      let rest : Represents go (load_rows go rows inst').0
          (with_rows go inst'.def.primary_key rows t') =
        rows-Represents rows inst' t' (rw filter built) (rw def listed)
          (ap (λ x. x.1) (sym same) ∙ done) (row-Represents row inst t built d h) in
      rw same (rw def at rest)

  -- What LoadSnapshot does not change, and what it sets.
  abbrev Begun : Lsn → Instance C → Instance C → Type 0
  Begun lsn inst i =
      (i.log.halted ≡ none)
      × (i.has_snapshot ≡ true)
      × (i.snapshot_lsn ≡ lsn)
      × (i.fingerprint ≡ inst.fingerprint)
      × (i.def ≡ inst.def)
      × (i.filter ≡ inst.filter)

  loads :
      (lsn : Lsn) (rows : List (Option Row)) (inst : Instance C)
      → inst.log.halted ≡ none
      → load_snapshot go lsn rows inst
        ≡ load_rows go rows (record inst { snapshot_lsn = lsn; has_snapshot = true })
  unfolding load_snapshot
  loads lsn rows inst runs = ground (arith, runs)

  load_snapshot-Begun :
      (lsn : Lsn) (rows : List (Option Row)) (inst : Instance C)
      → inst.log.halted ≡ none
      → Begun lsn inst (load_snapshot go lsn rows inst).0
  load_snapshot-Begun lsn rows inst runs = rw (loads lsn rows inst runs) (
      load_rows_induction go (Begun lsn inst)
        (λ row i _ (r, b, l, p, d, f).
          let plan = plan_insert go row i in
          (
            halted-perform plan i ∙ r,
            has_snapshot-perform plan i ∙ b,
            snapshot_lsn-perform plan i ∙ l,
            fingerprint-perform plan i ∙ p,
            def-perform plan i ∙ d,
            filter-perform plan i ∙ f,
          ))
        rows (record inst { snapshot_lsn = lsn; has_snapshot = true }) runs
        (runs, refl, refl, refl, refl, refl))

  load_snapshot-Represents :
      (lsn : Lsn) (rows : List (Option Row)) (inst : Instance C) (t : Table)
      → inst.log.halted ≡ none
      → inst.cache ≡ []
      → IsBuilt inst.filter
      → Listed go inst.def.primary_key rows no_rows
      → Selected go inst.filter (with_rows go inst.def.primary_key rows no_rows) t
      → (load_snapshot go lsn rows inst).1 ≡ none
      → Represents go (load_snapshot go lsn rows inst).0 t
  load_snapshot-Represents lsn rows inst t runs empty built listed selected done key =
      let i : Instance C = record inst { snapshot_lsn = lsn; has_snapshot = true } in
      let blank : Represents go i no_rows = λ j. rw (empty, cached-nil j) tt in
      let done' : (load_rows go rows i).1 ≡ none =
        ap (λ x. x.1) (sym (loads lsn rows inst runs)) ∙ done in
      let h : Represents go (load_rows go rows i).0
          (with_rows go inst.def.primary_key rows no_rows) =
        rows-Represents rows i no_rows built listed done' blank in
      let (_, _, _, _, _, f) = load_snapshot-Begun lsn rows inst runs in
      let h' : Represents go (load_snapshot go lsn rows inst).0
          (with_rows go inst.def.primary_key rows no_rows) =
        rw (loads lsn rows inst runs) h in
      Agrees-selected go (load_snapshot go lsn rows inst).0.filter
        (cached key (load_snapshot go lsn rows inst).0.cache)
        (with_rows go inst.def.primary_key rows no_rows key) (t key) (h' key) (rw f (selected key))

  -- A stream from its beginning. An instance as NewInstance makes it, with a filter that the package
  -- built, loads the rows of a snapshot at LSN n without an error: rows with different keys, just
  -- those rows of a table that the filter admits. It is then fed any stream of changes of its table
  -- under one schema, of which those above n (or of unknown LSN) say what the database did: an insert
  -- brings a new key, a delete names its key, and an update keeps its row's primary key and brings a
  -- row with every column, and so does its old row, if it has one. At the end it represents the table
  -- after the changes above n.
  pub load_snapshot-apply_all :
      (lsn : Lsn) (rows : List (Option Row)) (inst : Instance C) (t : Table) (fp : Text)
      (chs : List Change)
      → inst.log.halted ≡ none
      → inst.fingerprint ≡ []
      → inst.cache ≡ []
      → IsBuilt inst.filter
      → Listed go inst.def.primary_key rows no_rows
      → Selected go inst.filter (with_rows go inst.def.primary_key rows no_rows) t
      → (load_snapshot go lsn rows inst).1 ≡ none
      → Feeds go inst.def lsn fp chs t
      → Represents go
          (apply_all go chs (load_snapshot go lsn rows inst).0)
          (advance_all go inst.def.primary_key lsn chs t)
  load_snapshot-apply_all lsn rows inst t fp chs runs unseen empty built listed selected done
        feeds =
      let h = load_snapshot-Represents lsn rows inst t runs empty built listed selected done in
      let (r, b, l, p, d, f) = load_snapshot-Begun lsn rows inst runs in
      let i = (load_snapshot go lsn rows inst).0 in
      let out : Represents go (apply_all go chs i)
          (advance_all go i.def.primary_key i.snapshot_lsn chs t) =
        apply_all-Represents go fp chs i t
          (record { runs = r; behind = b; schema = inl (p ∙ unseen) }) (rw f built)
          (rw (d, l) feeds) h in
      rw (d, l) at out
