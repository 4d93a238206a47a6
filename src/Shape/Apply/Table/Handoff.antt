-- ===== src/Shape/Apply/Table/Handoff.antt =====
-- A stream of changes behind a snapshot: the shape follows the table from the snapshot's LSN on,
-- although the stream repeats changes that the snapshot holds already.
use tether.Prelude.{
  Bool, true, false, not, ◌&&◌, ◌==◌, leb, List, [], ◌∷◌, none, Text, ok, ◌≡◌, refl, ap,
  if◌then◌else◌, ◌=t◌, =t_iff, arith, Bool-cases, inl, inr, ◌⊎◌,
}
use tether.Shape.Apply.{is_covered, apply}
use tether.Shape.Apply.Plan.{perform, plan, apply-eq-perform, halted-perform, def-perform}
use tether.Shape.Apply.Table.{
  Table, commit, Describes, Represents, filter-perform, snapshot_lsn-perform, has_snapshot-perform,
  fingerprint-perform,
}
use tether.Shape.Apply.Table.Refine.{perform-Represents}
use tether.Shape.Filter.Matching.{IsBuilt}
use tether.Shape.Instance.{Definition, Instance, table_match, check_fingerprint}
use tether.Value.{Runtime}
use tether.Wal.Change.{Change, Lsn}

-- The snapshot at LSN n holds the change.
abbrev pub held : Lsn → Change → Bool
held n ch = not (ch.commit_lsn == 0) && leb ch.commit_lsn n

-- What a change of the stream does to the table that the snapshot at LSN n showed.
unfoldable pub advance : Runtime → List Text → Lsn → Change → Table → Table
advance go pk n ch t = if held n ch then t else commit go pk ch t

unfoldable pub advance_all : Runtime → List Text → Lsn → List Change → Table → Table
advance_all go pk n [] t = t
advance_all go pk n (ch ∷ chs) t = advance_all go pk n chs (advance go pk n ch t)

-- The changes are of the shape's table, under one schema with the fingerprint fp, and each that
-- the snapshot does not hold says what the database did to the table at that point.
abbrev pub Feeds : {C : Type 0} → Runtime → Definition C → Lsn → Text → List Change → Table → Type 0
Feeds go d n fp [] t = Unit
Feeds go d n fp (ch ∷ chs) t =
    (table_match d ch ≡ true)
    × (ch.relation_fingerprint ≡ fp)
    × (held n ch ≡ false → Describes go d.primary_key ch.op ch t)
    × Feeds go d n fp chs (advance go d.primary_key n ch t)

-- The calls of Apply for a stream; the engine logs an error and goes on.
unfoldable pub apply_all : {C : Type 0} → Runtime → List Change → Instance C → Instance C
apply_all go [] inst = inst
apply_all go (ch ∷ chs) inst = apply_all go chs (apply go ch inst).0

-- A shape that runs behind its snapshot and has seen no other schema than fp.
pub record IsLive {C : Type 0} (fp : Text) (inst : Instance C) : Type 0 where
  pub runs : inst.log.halted ≡ none
  pub behind : inst.has_snapshot ≡ true
  pub schema : (inst.fingerprint ≡ []) ⊎ (inst.fingerprint ≡ fp)

advance_all_cons :
    (go : Runtime) (pk : List Text) (n : Lsn) (ch : Change) (chs : List Change) (t u : Table)
    → advance go pk n ch t ≡ u
    → advance_all go pk n (ch ∷ chs) t ≡ advance_all go pk n chs u
unfolding advance_all
advance_all_cons go pk n ch chs t u e = ap (advance_all go pk n chs) e

advance-held :
    (go : Runtime) (pk : List Text) (n : Lsn) (ch : Change) (t : Table)
    → held n ch ≡ true
    → advance go pk n ch t ≡ t
unfolding advance
advance-held go pk n ch t e = rw e

advance_fresh :
    (go : Runtime) (pk : List Text) (n : Lsn) (ch : Change) (t : Table)
    → held n ch ≡ false
    → advance go pk n ch t ≡ commit go pk ch t
unfolding advance
advance_fresh go pk n ch t e = rw e

module _ {C : Type 0} (go : Runtime) (fp : Text) where
  check_same :
      (inst : Instance C)
      → IsLive fp inst
      → (fp' : Text) × (check_fingerprint fp inst ≡ (record inst { fingerprint = fp' }, none))
        × ((fp' ≡ []) ⊎ (fp' ≡ fp))
  unfolding check_fingerprint
  check_same inst v = elim (Bool-cases (fp =t [])) [
    | inl blank ↦ (inst.fingerprint, ground arith, v.schema)
    | inr known ↦
        (fp, ground (arith, =t_iff inst.fingerprint [], =t_iff inst.fingerprint fp), inr refl)
  ]

  apply-held :
      (ch : Change) (inst : Instance C)
      → IsLive fp inst
      → table_match inst.def ch ≡ true
      → held inst.snapshot_lsn ch ≡ true
      → apply go ch inst ≡ (inst, ok [])
  unfolding apply is_covered
  apply-held ch inst v m e = let runs = v.runs in let behind = v.behind in ground arith

  apply_fresh :
      (ch : Change) (inst : Instance C)
      → IsLive fp inst
      → table_match inst.def ch ≡ true
      → ch.relation_fingerprint ≡ fp
      → held inst.snapshot_lsn ch ≡ false
      → (fp' : Text) × (apply go ch inst
          ≡ perform
              (plan go ch (record inst { fingerprint = fp' }))
              (record inst { fingerprint = fp' }))
        × ((fp' ≡ []) ⊎ (fp' ≡ fp))
  unfolding is_covered
  apply_fresh ch inst v m e fresh =
      let (fp', c, s) = check_same inst v in
      (
        fp',
        apply-eq-perform go ch inst (record inst { fingerprint = fp' }) v.runs m (ground arith)
            (rw e c),
        s,
      )

  apply_fresh-IsLive :
      (ch : Change) (inst : Instance C)
      → IsLive fp inst
      → table_match inst.def ch ≡ true
      → ch.relation_fingerprint ≡ fp
      → held inst.snapshot_lsn ch ≡ false
      → IsLive fp (apply go ch inst).0
  apply_fresh-IsLive ch inst v m e fresh =
      let (fp', eq, s) = apply_fresh ch inst v m e fresh in
      let i : Instance C = record inst { fingerprint = fp' } in
      let p = plan go ch i in
      rw eq (record {
        runs = rw (halted-perform p i) v.runs;
        behind = rw (has_snapshot-perform p i) v.behind;
        schema = rw (fingerprint-perform p i) s;
      })

  -- Apply changes nothing of what a stream's hypotheses speak of.
  apply_fresh-fixed :
      (ch : Change) (inst : Instance C)
      → IsLive fp inst
      → table_match inst.def ch ≡ true
      → ch.relation_fingerprint ≡ fp
      → held inst.snapshot_lsn ch ≡ false
      → ((apply go ch inst).0.def ≡ inst.def)
        × ((apply go ch inst).0.filter ≡ inst.filter)
        × ((apply go ch inst).0.snapshot_lsn ≡ inst.snapshot_lsn)
  apply_fresh-fixed ch inst v m e fresh =
      let (fp', eq, s) = apply_fresh ch inst v m e fresh in
      let i : Instance C = record inst { fingerprint = fp' } in
      let p = plan go ch i in
      (rw eq (def-perform p i), rw eq (filter-perform p i), rw eq (snapshot_lsn-perform p i))

  apply_fresh-Represents :
      (ch : Change) (inst : Instance C) (t : Table)
      → IsLive fp inst
      → table_match inst.def ch ≡ true
      → ch.relation_fingerprint ≡ fp
      → held inst.snapshot_lsn ch ≡ false
      → IsBuilt inst.filter
      → Describes go inst.def.primary_key ch.op ch t
      → Represents go inst t
      → Represents go (apply go ch inst).0 (commit go inst.def.primary_key ch t)
  apply_fresh-Represents ch inst t v m e fresh built d h =
      let (fp', eq, s) = apply_fresh ch inst v m e fresh in
      let i : Instance C = record inst { fingerprint = fp' } in
      rw eq (perform-Represents go i built t h ch d)

  all_held :
      (ch : Change) (chs : List Change) (inst : Instance C)
      → apply go ch inst ≡ (inst, ok [])
      → apply_all go (ch ∷ chs) inst ≡ apply_all go chs inst
  unfolding apply_all
  all_held ch chs inst e = ap (λ o. apply_all go chs o.0) e

  all_cons :
      (ch : Change) (chs : List Change) (inst : Instance C)
      → apply_all go (ch ∷ chs) inst ≡ apply_all go chs (apply go ch inst).0
  unfolding apply_all
  all_cons ch chs inst = refl

  -- The handoff. A running shape behind a snapshot, with a filter that the package built, represents
  -- the table as its snapshot at LSN n showed it. Then it is fed any stream of changes of its table,
  -- under one schema, of which those above n (or of unknown LSN) say what the database did, while
  -- those at or below n are repeated by the stream. An insert brings a new key, a delete names its
  -- key, and an update keeps its row's primary key and brings a row with every column, and so does
  -- its old row, if it has one. At the end the shape represents the table after the changes above n:
  -- of such a stream none is lost, and none that the snapshot held is applied again.
  pub apply_all-Represents :
      (chs : List Change) (inst : Instance C) (t : Table)
      → IsLive fp inst
      → IsBuilt inst.filter
      → Feeds go inst.def inst.snapshot_lsn fp chs t
      → Represents go inst t
      → Represents go
          (apply_all go chs inst)
          (advance_all go inst.def.primary_key inst.snapshot_lsn chs t)
  apply_all-Represents [] inst t v built feeds h = unfold apply_all advance_all in h
  apply_all-Represents (ch ∷ chs) inst t v built feeds h =
      let pk = inst.def.primary_key in
      let n = inst.snapshot_lsn in
      elim (Bool-cases (held n ch)) [
        | inl old ↦
            let adv = advance-held go pk n ch t old in
            rw
              (
                all_held ch chs inst (apply-held ch inst v feeds.0 old),
                advance_all_cons go pk n ch chs t t adv,
              )
              (apply_all-Represents chs inst t v built (rw adv at (feeds.3)) h)
        | inr fresh ↦
            let adv = advance_fresh go pk n ch t fresh in
            let (d, f, l) = apply_fresh-fixed ch inst v feeds.0 feeds.1 fresh in
            let rest =
              apply_all-Represents chs (apply go ch inst).0 (commit go pk ch t)
                (apply_fresh-IsLive ch inst v feeds.0 feeds.1 fresh) (rw f built)
                (rw (d, l) (rw adv at (feeds.3)))
                (apply_fresh-Represents ch inst t v feeds.0 feeds.1 fresh built (feeds.2 fresh)
                  h) in
            rw (all_cons ch chs inst, advance_all_cons go pk n ch chs t (commit go pk ch t) adv)
              (rw (d, l) at rest)
      ]
