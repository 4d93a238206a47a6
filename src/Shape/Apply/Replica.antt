-- ===== src/Shape/Apply/Replica.antt =====
-- The rows that a client holds after it has applied the events of a shape log, against the rows
-- that the shape caches.
pub mod Keys
use tether.Prelude.{
  Bool, true, false, not, List, [], ◌∷◌, ◌++◌, Option, none, some, Text, Result, ok, err, ◌≡◌, ◌≢◌,
  refl, if◌then◌else◌, ◌=t◌, =t_iff, arith, Bool-cases, inl, inr, All, insert, erase, sym, ◌∙◌, ap,
}
use tether.Shape.Apply.{to_delete, was_in, lookup_row, apply, load_snapshot}
use tether.Shape.Apply.Induction.{apply_induction, load_snapshot_induction}
use tether.Shape.Apply.Plan.{
  Plan, quiet, fail, write, remove, perform, plan_insert, plan_delete, plan_update, plan_op, plan,
}
use tether.Shape.Error.{Error}
use tether.Shape.Filter.{Filter, match_row}
use tether.Shape.Instance.{Instance, Cache, cached, store, drop_row, emit}
use tether.Shape.Instance.Laws.{cached-nil, cached-insert, cached-erase, emit_running, logged}
use tether.Shape.Key.{pk_key, patch_row, first_non_nil}
use tether.Shape.Key.Laws.{column-patch_row, pk_key-cong, pk_key_present}
use tether.Shape.Log.{Event, EventOp, Log, halt}
use tether.Shape.Log.Offsets.{events-halt}
use tether.Value.{Runtime, Row, column, clone_row, clone_row_lem}
use tether.Wal.Change.{Change, Op, Lsn}

-- What a client does with an event: it stores or removes the row under the row's own key, and
-- ignores a row without one.
play_at : EventOp → Result Error Text → Option Row → Cache → Cache
play_at op (err e) row m = m
play_at EventOp.delete (ok key) row m = erase key m
play_at op (ok key) row m = insert key row m

unfoldable pub play : Runtime → List Text → Event → Cache → Cache
unfolding play_at
play go pk ev m = play_at ev.op (pk_key go pk ev.row) ev.row m

unfoldable pub replay : Runtime → List Text → List Event → Cache → Cache
replay go pk [] m = m
replay go pk (ev ∷ evs) m = replay go pk evs (play go pk ev m)

replay-append :
    (go : Runtime) (pk : List Text) (evs : List Event) (ev : Event) (m : Cache)
    → replay go pk (evs ++ ev ∷ []) m ≡ play go pk ev (replay go pk evs m)
unfolding replay
replay-append go pk [] ev m = refl
replay-append go pk (x ∷ evs) ev m = replay-append go pk evs ev (play go pk x m)

-- The shape's cache and what a client has replayed.
pub record IsMirrored {C : Type 0} (go : Runtime) (inst : Instance C) : Type 0 where
  -- each cached row stands under its own key
  pub keyed :
      (key : Text) (row : Row)
      → cached key inst.cache ≡ some row
      → pk_key go inst.def.primary_key (some row) ≡ ok key
  -- a client that has applied the whole log holds exactly the cached rows
  pub mirrored :
      (key : Text)
      → cached key (replay go inst.def.primary_key inst.log.events []) ≡ cached key inst.cache

-- What a plan must satisfy: a row is written, or removed, under its own key.
abbrev pub KeysRight : Runtime → List Text → Plan → Type 0
KeysRight go pk p =
    ((op : EventOp) (key : Text) (row : Option Row)
      → p ≡ write op key row
      → (pk_key go pk row ≡ ok key) × (op ≢ EventOp.delete))
    × ((key : Text) (row : Option Row) → p ≡ remove key row → pk_key go pk row ≡ ok key)

-- The row that an event leaves under its key.
abbrev left : EventOp → Option Row → Option Row
left EventOp.delete row = none
left op row = row

cached-play_at :
    (op : EventOp) (key j : Text) (row : Option Row) (m : Cache)
    → cached j (play_at op (ok key) row m) ≡ (if key =t j then left op row else cached j m)
unfolding play_at
cached-play_at EventOp.delete key j row m = cached-erase key j m
cached-play_at EventOp.insert key j row m = cached-insert key j row m
cached-play_at EventOp.update key j row m = cached-insert key j row m

module _ {C : Type 0} (go : Runtime) where
  -- One event and one write to the cache keep a client and the cache together.
  logged-IsMirrored :
      (op : EventOp) (key : Text) (row : Option Row) (inst : Instance C)
      → pk_key go inst.def.primary_key row ≡ ok key
      → IsMirrored go inst
      → IsMirrored go (logged op row (record inst { cache = play_at op (ok key) row inst.cache }))
  logged-IsMirrored op key row inst k h =
      let pk = inst.def.primary_key in
      let ev : Event = record {
        offset = inst.log.next;
        op = op;
        table = inst.def.table;
        row = row;
      } in
      record {
        keyed = λ j r e. keyed_at j r op (sym (cached-play_at op key j row inst.cache) ∙ e);
        mirrored = λ j. rw (replay-append go pk inst.log.events ev []) (
            unfold play in
            rw (
              k,
              cached-play_at op key j row (replay go pk inst.log.events []),
              cached-play_at op key j row inst.cache,
              h.mirrored j,
            ));
      }
    where
      keyed_at :
          (j : Text) (r : Row) (op : EventOp)
          → (if key =t j then left op row else cached j inst.cache) ≡ some r
          → pk_key go inst.def.primary_key (some r) ≡ ok j
      keyed_at j r EventOp.delete e = ground (arith, h.keyed j r)
      keyed_at j r EventOp.insert e = ground (arith, h.keyed j r, =t_iff key j)
      keyed_at j r EventOp.update e = ground (arith, h.keyed j r, =t_iff key j)

  pub perform-IsMirrored :
      (p : Plan) (inst : Instance C)
      → inst.log.halted ≡ none
      → KeysRight go inst.def.primary_key p
      → IsMirrored go inst
      → IsMirrored go (perform p inst).0
  unfolding perform store drop_row
  perform-IsMirrored quiet inst runs k h = h
  perform-IsMirrored (fail e) inst runs k h = h
  perform-IsMirrored (write EventOp.delete key row) inst runs k h =
      absurd ((k.0 EventOp.delete key row refl).1 refl)
  perform-IsMirrored (write EventOp.insert key row) inst runs k h =
      rw
        (
          emit_running EventOp.insert row
              (record inst { cache = insert key (clone_row row) inst.cache }) runs,
          clone_row_lem row,
        )
        (unfold play_at in
          logged-IsMirrored EventOp.insert key row inst (k.0 EventOp.insert key row refl).0 h)
  perform-IsMirrored (write EventOp.update key row) inst runs k h =
      rw
        (
          emit_running EventOp.update row
              (record inst { cache = insert key (clone_row row) inst.cache }) runs,
          clone_row_lem row,
        )
        (unfold play_at in
          logged-IsMirrored EventOp.update key row inst (k.0 EventOp.update key row refl).0 h)
  perform-IsMirrored (remove key row) inst runs k h =
      rw (emit_running EventOp.delete row (record inst { cache = erase key inst.cache }) runs)
        (unfold play_at in logged-IsMirrored EventOp.delete key row inst (k.1 key row refl) h)
