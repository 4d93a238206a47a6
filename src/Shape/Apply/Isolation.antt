-- ===== src/Shape/Apply/Isolation.antt =====
-- A shape holds, and shows to its subscribers, only rows that its filter admits.
use tether.Prelude.{
  true, false, Bool, Result-cases, List, none, Option, some, Text, ok, ◌≡◌, refl, arith, inl, inr,
  All, All-append,
}
use tether.Shape.Apply.{apply, load_snapshot, lookup_row, to_delete, was_in}
use tether.Shape.Key.{pk_key, patch_row, first_non_nil}
use tether.Shape.Apply.Plan.{
  Plan, quiet, fail, write, remove, perform, plan_insert, plan_delete, plan_update, move_plan,
  plan_op, plan,
}
use tether.Shape.Apply.Induction.{apply_induction, load_snapshot_induction}
use tether.Shape.Error.{Error}
use tether.Shape.Filter.{Filter, match_row}
use tether.Shape.Instance.{Instance, cached, store, drop_row, emit}
use tether.Shape.Instance.Laws.{cached-insert, cached-erase, emit_state}
use tether.Shape.Log.{EventOp, halt}
use tether.Shape.Log.Offsets.{events-halt}
use tether.Value.{Runtime, Row, clone_row_lem}
use tether.Wal.Change.{Change, Op, Lsn}

-- A row that the filter admits.
abbrev pub Admitted : Runtime → Filter → Option Row → Type 0
Admitted go f row = match_row go f row ≡ ok true

pub record IsIsolated {C : Type 0} (go : Runtime) (inst : Instance C) : Type 0 where
  -- every cached row satisfies the filter
  pub cached_match :
      (key : Text) (row : Row)
      → cached key inst.cache ≡ some row
      → match_row go inst.filter (some row) ≡ ok true
  -- so does every row that the log shows, the row of a delete included
  pub logged_match : All (λ ev. Admitted go inst.filter ev.row) inst.log.events

-- A plan caches, and shows in its event, only rows that the filter admits.
abbrev Shows : Runtime → Filter → Plan → Type 0
Shows go f quiet = Unit
Shows go f (fail e) = Unit
Shows go f (write op key row) = Admitted go f row
Shows go f (remove key row) = Admitted go f row

-- Each row that may be cached is one that the filter admits.
abbrev Hits : Runtime → Filter → Option Row → Type 0
Hits go f none = Unit
Hits go f (some c) = Admitted go f (some c)

to_delete-Admitted :
    (go : Runtime) (f : Filter) (hit old : Option Row)
    → Hits go f hit
    → to_delete go f hit old ≡ ok true
    → Admitted go f (first_non_nil hit old)
unfolding to_delete first_non_nil
to_delete-Admitted go f (some c) old h e = h
to_delete-Admitted go f none none h e = cc
to_delete-Admitted go f none (some o) h e = e

was_in-Admitted :
    (go : Runtime) (f : Filter) (hit old row : Option Row)
    → Hits go f hit
    → was_in go f hit old ≡ ok (true, row)
    → Admitted go f row
unfolding was_in
was_in-Admitted go f (some c) old row h e = let same : some c ≡ row = cc in rw (← same) h
was_in-Admitted go f none none row h e = cc
was_in-Admitted go f none (some o) row h e = ground arith

move_plan-Shows :
    (go : Runtime) (f : Filter) (key : Text) (was is : Bool) (before_row after_row : Option Row)
    → (was ≡ true → Admitted go f before_row)
    → (is ≡ true → Admitted go f after_row)
    → Shows go f (move_plan key was before_row is after_row)
unfolding move_plan
move_plan-Shows go f key true true before_row after_row b a = a refl
move_plan-Shows go f key true false before_row after_row b a = b refl
move_plan-Shows go f key false true before_row after_row b a = a refl
move_plan-Shows go f key false false before_row after_row b a = tt

module _ {C : Type 0} (go : Runtime) where
  store-IsIsolated :
      (key : Text) (row : Option Row) (inst : Instance C)
      → match_row go inst.filter row ≡ ok true
      → IsIsolated go inst
      → IsIsolated go (store key row inst)
  unfolding store
  store-IsIsolated key row inst m h = record {
    cached_match = λ j r e.
        ground (arith, clone_row_lem row, cached-insert key j row inst.cache, h.cached_match j r);
    logged_match = h.logged_match;
  }

  drop_row-IsIsolated :
      (key : Text) (inst : Instance C) → IsIsolated go inst → IsIsolated go (drop_row key inst)
  unfolding drop_row
  drop_row-IsIsolated key inst h = record {
    cached_match = λ j r e. ground (arith, cached-erase key j inst.cache, h.cached_match j r);
    logged_match = h.logged_match;
  }

  emit-IsIsolated :
      (op : EventOp) (row : Option Row) (inst : Instance C)
      → Admitted go inst.filter row
      → IsIsolated go inst
      → IsIsolated go (emit op row inst).0
  emit-IsIsolated op row inst a h = elim (emit_state op row inst) [
    | inl e ↦ rw e h
    | inr e ↦ rw e (record {
      cached_match = h.cached_match;
      logged_match =
          All-append (λ ev. Admitted go inst.filter ev.row) inst.log.events _ h.logged_match
            (a, tt);
    })
  ]

  -- What lookup finds in an isolated shape.
  lookup_row-Hits :
      (row : Option Row) (inst : Instance C) (key : Text) (hit : Option Row)
      → IsIsolated go inst
      → lookup_row go row inst ≡ ok (key, hit)
      → Hits go inst.filter hit
  lookup_row-Hits row inst key none h e = tt
  lookup_row-Hits none inst key (some c) h e = unfold lookup_row in cc
  lookup_row-Hits (some r) inst key (some c) h e =
      h.cached_match key c (unfold lookup_row in ground arith)

  plan_insert-Shows :
      (neu : Option Row) (inst : Instance C) → Shows go inst.filter (plan_insert go neu inst)
  unfolding plan_insert
  plan_insert-Shows neu inst = elim (Result-cases (match_row go inst.filter neu)) [
    | inr (x, m) ↦ rw (m, Shows) tt
    | inl (false, m) ↦ rw (m, Shows) tt
    | inl (true, m) ↦
        rw (m, Shows)
          (elim (Result-cases (pk_key go inst.def.primary_key neu)) [
            | inr (x, k) ↦ rw (k, Shows) tt
            | inl (key, k) ↦ rw (k, Shows) m
          ])
  ]

  plan_delete-Shows :
      (old : Option Row) (inst : Instance C)
      → IsIsolated go inst
      → Shows go inst.filter (plan_delete go old inst)
  unfolding plan_delete
  plan_delete-Shows old inst h = elim (Result-cases (lookup_row go old inst)) [
    | inr (x, e) ↦ rw (e, Shows) tt
    | inl ((key, hit), e) ↦
        rw (e, Shows)
          (elim (Result-cases (to_delete go inst.filter hit old)) [
            | inr (x, d) ↦ rw (d, Shows) tt
            | inl (false, d) ↦ rw (d, Shows) tt
            | inl (true, d) ↦
                rw (d, Shows)
                  (to_delete-Admitted go inst.filter hit old (lookup_row-Hits old inst key hit h e)
                    d)
          ])
  ]

  plan_update-Shows :
      (old neu : Option Row) (inst : Instance C)
      → IsIsolated go inst
      → Shows go inst.filter (plan_update go old neu inst)
  unfolding plan_update
  plan_update-Shows old neu inst h =
      elim (Result-cases (lookup_row go (first_non_nil old neu) inst)) [
        | inr (x, e) ↦ rw (e, Shows) tt
        | inl ((key, hit), e) ↦
            rw (e, Shows)
              (elim (Result-cases (was_in go inst.filter hit old)) [
                | inr (x, w) ↦ rw (w, Shows) tt
                | inl ((was, row), w) ↦
                    rw (w, Shows)
                      (let next = some (patch_row hit old neu) in
                        elim (Result-cases (match_row go inst.filter next)) [
                          | inr (x, m) ↦ rw (m, Shows) tt
                          | inl (is, m) ↦
                              rw (m, Shows)
                                (move_plan-Shows go inst.filter key was is row next
                                  (λ t.
                                    was_in-Admitted go inst.filter hit old row
                                      (lookup_row-Hits (first_non_nil old neu) inst key hit h e)
                                      (rw t at w))
                                  (λ t. rw t at m))
                        ])
              ])
      ]

  plan_op-Shows :
      (op : Op) (ch : Change) (inst : Instance C)
      → IsIsolated go inst
      → Shows go inst.filter (plan_op go op ch inst)
  unfolding plan_op
  plan_op-Shows Op.insert ch inst h = plan_insert-Shows ch.new inst
  plan_op-Shows Op.delete ch inst h = plan_delete-Shows ch.old inst h
  plan_op-Shows Op.update ch inst h = plan_update-Shows ch.old ch.new inst h
  plan_op-Shows (Op.other_op name) ch inst h = tt

  perform-IsIsolated :
      (p : Plan) (inst : Instance C)
      → Shows go inst.filter p
      → IsIsolated go inst
      → IsIsolated go (perform p inst).0
  unfolding perform
  perform-IsIsolated quiet inst w h = h
  perform-IsIsolated (fail e) inst w h = h
  perform-IsIsolated (write op key row) inst w h =
      emit-IsIsolated op row (store key row inst) (unfold store in w)
        (store-IsIsolated key row inst w h)
  perform-IsIsolated (remove key row) inst w h =
      emit-IsIsolated EventOp.delete row (drop_row key inst) (unfold drop_row in w)
        (drop_row-IsIsolated key inst h)

  -- Apply, on any change and on every branch, errors included, keeps a shape isolated: the cache
  -- holds only rows that the filter admits, and every event of the log, deletes included, shows
  -- such a row.
  pub apply-IsIsolated :
      (ch : Change) (inst : Instance C) → IsIsolated go inst → IsIsolated go (apply go ch inst).0
  apply-IsIsolated ch =
      apply_induction go (IsIsolated go) ch
        (λ fp inst h. record { cached_match = h.cached_match; logged_match = h.logged_match })
        (λ e inst h. record {
          cached_match = h.cached_match;
          logged_match = halt_keeps e inst h.logged_match;
        })
        (λ inst _ h.
          perform-IsIsolated (plan go ch inst) inst (unfold plan in plan_op-Shows ch.op ch inst h)
            h)
    where
      halt_keeps :
          (e : Error) (inst : Instance C)
          → All (λ ev. Admitted go inst.filter ev.row) inst.log.events
          → All (λ ev. Admitted go inst.filter ev.row) (halt e inst.log).events
      halt_keeps e inst h = rw (events-halt e inst.log) h

  -- LoadSnapshot keeps a shape isolated, whatever rows it is given and wherever it fails.
  pub load_snapshot-IsIsolated :
      (lsn : Lsn) (rows : List (Option Row)) (inst : Instance C)
      → IsIsolated go inst
      → IsIsolated go (load_snapshot go lsn rows inst).0
  load_snapshot-IsIsolated lsn rows inst h =
      load_snapshot_induction go (IsIsolated go)
        (λ row inst _ h.
          perform-IsIsolated (plan_insert go row inst) inst (plan_insert-Shows row inst) h)
        lsn rows inst h (record { cached_match = h.cached_match; logged_match = h.logged_match })
