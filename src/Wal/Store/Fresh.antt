-- ===== src/Wal/Store/Fresh.antt =====
-- What the durable transaction writes where the change log has no row of its LSN.
use tether.Prelude.{
  ℕ, suc, ◌≤◌, false, List, [], ◌∷◌, ◌++◌, Option, none, some, Text, ◌≡◌, refl, sym, ◌∙◌, ok, arith,
  inl, inr, ◌⊎◌, ◌≢◌, lookup, lookup-insert_self,
}
use mathlib.Core.List.{append_assoc, append-nil}
use tether.Wal.Change.{Change, Lsn}
use tether.Wal.Store.Rows.{Holds, change_cases, row_of-Holds}
use tether.Wal.Store.{
  Codecs, LogRow, row_of, Store, has_row, insert_row, is_seq, persist_changes, Weather, persist,
}
use tether.Wal.Store.Twice.{SameTables, persist_changes_step, persist_cases, has_row-append}

module _ (cod : Codecs) (consumer : Text) (lsn : Lsn) (xid : ℕ) where
  -- The rows of a transaction's changes: the i-th has the sequence number seq + i and the id
  -- id + i, and holds its change with the two rows as JSON, a nil row as NULL.
  unfoldable pub RowsOf : ℕ → ℕ → List Change → List LogRow → Type 0
  RowsOf seq id [] [] = Unit
  RowsOf seq id [] (r ∷ rs) = ⊥
  RowsOf seq id (ch ∷ chs) [] = ⊥
  RowsOf seq id (ch ∷ chs) (r ∷ rs) =
      Holds cod consumer lsn xid seq ch r × (r.id ≡ id) × RowsOf (suc seq) (suc id) chs rs

  -- The change log has no row of the LSN from a sequence number on.
  unfoldable pub IsFresh : ℕ → Store → Type 0
  IsFresh seq st = (q : ℕ) → seq ≤ q → has_row consumer (cod.print_lsn lsn) q st.change_log ≡ false

  insert_fresh :
      (seq : ℕ) (r : LogRow) (st : Store)
      → has_row r.consumer_id r.lsn r.seq st.change_log ≡ false
      → insert_row r st ≡ record st {
        next_id = suc st.next_id;
        change_log = st.change_log ++ record r { id = st.next_id } ∷ [];
      }
  unfolding insert_row
  insert_fresh seq r st e = ground arith

  IsFresh-append :
      (seq id : ℕ) (ch : Change) (old new : Option Text) (st : Store)
      → IsFresh seq st
      → (q : ℕ) → suc seq ≤ q
      → has_row consumer
          (cod.print_lsn lsn)
          q
          (st.change_log ++ record (row_of cod consumer lsn xid seq ch old new) { id = id } ∷ [])
        ≡ false
  unfolding IsFresh
  IsFresh-append seq id ch old new st fresh q le =
      has_row-append consumer (cod.print_lsn lsn) q st.change_log
        (record (row_of cod consumer lsn xid seq ch old new) { id = id })
      ∙ ground (arith, fresh q)

  persist_changes-RowsOf :
      (failing : Option ℕ) (seq : ℕ) (chs : List Change) (st st' : Store)
      → IsFresh seq st
      → persist_changes cod consumer lsn xid failing seq chs st ≡ ok st'
      → (rs : List LogRow) × ((st'.change_log ≡ st.change_log ++ rs) × RowsOf seq st.next_id chs rs)
  unfolding RowsOf IsFresh
  persist_changes-RowsOf failing seq [] st st' fresh e =
      let eq : st ≡ st' = unfold persist_changes in cc in
      ([], rw (← eq) (sym (append-nil st.change_log), tt))
  persist_changes-RowsOf failing seq (ch ∷ chs) st st' fresh e =
      let (mid, one, rest) =
        persist_changes_step cod consumer lsn xid failing seq ch chs st st' e in
      let (old, (new, (eo, en, eq))) =
        change_cases cod consumer lsn xid seq (is_seq failing seq) ch st mid one in
      let r = row_of cod consumer lsn xid seq ch old new in
      let r' = record r { id = st.next_id } in
      let m : mid ≡ record st { next_id = suc st.next_id; change_log = st.change_log ++ r' ∷ [] } =
        eq ∙ insert_fresh seq r st (fresh seq (omega arith)) in
      let rest' : persist_changes cod consumer lsn xid failing (suc seq) chs
            (record st { next_id = suc st.next_id; change_log = st.change_log ++ r' ∷ [] })
          ≡ ok st' =
        rw m at rest in
      let (rs, (log, rows)) =
        persist_changes-RowsOf failing (suc seq) chs
          (record st { next_id = suc st.next_id; change_log = st.change_log ++ r' ∷ [] }) st'
          (IsFresh-append seq st.next_id ch old new st fresh) rest' in
      (
        r' ∷ rs,
        (
          log ∙ append_assoc st.change_log (r' ∷ []) rs,
          (row_of-Holds cod consumer lsn xid seq st.next_id ch old new eo en, refl, rows),
        ),
      )

  -- The durable transaction on a change log without a row of its LSN is atomic and exact, whatever
  -- the database answers: either it returns an error and leaves both tables as they were (the sequence
  -- behind id may have moved on), or it has appended to the change log exactly one row for each
  -- change, in order, with sequence numbers from 0 and ids from the next one, that holds the
  -- change's schema, table, operation, fingerprint and both rows as JSON, and has set the checkpoint
  -- to its LSN.
  pub persist_exact :
      (w : Weather) (chs : List Change) (st : Store)
      → IsFresh 0 st
      → SameTables st (persist cod consumer w lsn xid chs st).0
          × ((persist cod consumer w lsn xid chs st).1 ≢ none)
        ⊎ (rs : List LogRow) × ((persist cod consumer w lsn xid chs st).0.change_log
            ≡ st.change_log ++ rs)
          × RowsOf 0 st.next_id chs rs
          × (lookup consumer (persist cod consumer w lsn xid chs st).0.checkpoint
              ≡ some (cod.print_lsn lsn))
  persist_exact w chs st fresh = elim (persist_cases cod consumer lsn xid w chs st) [
    | inr failed ↦ inl failed
    | inl (tx, p, eq) ↦
        let (rs, (log, rows)) = persist_changes-RowsOf w.failing 0 chs st tx fresh p in
        inr (rw eq (rs, log, rows, lookup-insert_self consumer (cod.print_lsn lsn) tx.checkpoint))
  ]
