-- ===== src/Wal/Store/Twice.antt =====
-- The cases of a durable transaction, and that a transaction that Postgres sends again adds nothing.
use tether.Prelude.{
  ℕ, suc, true, ◌&&◌, List, [], ◌∷◌, ◌++◌, Option, none, Text, ◌=t◌, ◌==◌, ◌||◌, ◌≡◌, ◌≢◌, ◌⊎◌,
  refl, Result, ok, err, ◌>>=◌, insert, ap, sym, ◌∙◌, arith, =t_refl, Result-cases, Bool-cases, inl,
  inr,
}
use tether.Wal.Change.{Change, Lsn}
use tether.Wal.Error.{Error}
use tether.Wal.Store.Rows.{change_cases}
use tether.Wal.Store.{
  Codecs, LogRow, row_of, Store, has_row, insert_row, persist_change, is_seq, persist_changes,
  Commit, committed, rolled_back, answer_lost, Weather, roll_back, finish, persist,
}

-- Two states of the store hold the same rows; the sequence behind id may have moved on.
abbrev pub SameTables : Store → Store → Type 0
SameTables st st' = (st'.change_log ≡ st.change_log) × (st'.checkpoint ≡ st.checkpoint)

-- Every change from a sequence number on has its row in the change log.
abbrev pub Logged : Text → Text → ℕ → List Change → List LogRow → Type 0
Logged consumer lsn seq [] log = Unit
Logged consumer lsn seq (ch ∷ chs) log =
    (has_row consumer lsn seq log ≡ true) × Logged consumer lsn (suc seq) chs log

pub has_row-append :
    (c l : Text) (q : ℕ) (log : List LogRow) (r : LogRow)
    → has_row c l q (log ++ r ∷ [])
      ≡ (has_row c l q log || (r.consumer_id =t c && r.lsn =t l && r.seq == q))
unfolding has_row
has_row-append c l q [] r = ground arith
has_row-append c l q (x ∷ log) r = ground (arith, has_row-append c l q log r)

-- Inserting a row keeps every row that is there, and brings its own.
has_row-insert_row :
    (c l : Text) (q : ℕ) (r : LogRow) (st : Store)
    → has_row c l q st.change_log ≡ true
    → has_row c l q (insert_row r st).change_log ≡ true
unfolding insert_row
has_row-insert_row c l q r st h =
    ground (arith, has_row-append c l q st.change_log (record r { id = st.next_id }))

has_row-insert_row_self :
    (r : LogRow) (st : Store)
    → has_row r.consumer_id r.lsn r.seq (insert_row r st).change_log ≡ true
unfolding insert_row
has_row-insert_row_self r st = ground (
  arith,
  has_row-append r.consumer_id r.lsn r.seq st.change_log (record r { id = st.next_id }),
  =t_refl r.consumer_id,
  =t_refl r.lsn,
)

insert_row_again :
    (r : LogRow) (st : Store)
    → has_row r.consumer_id r.lsn r.seq st.change_log ≡ true
    → (insert_row r st).change_log ≡ st.change_log
unfolding insert_row
insert_row_again r st h = ground arith

module _ (cod : Codecs) (consumer : Text) (lsn : Lsn) (xid : ℕ) where
  -- The loop goes round by round.
  pub persist_changes_step :
      (failing : Option ℕ) (seq : ℕ) (ch : Change) (chs : List Change) (st st' : Store)
      → persist_changes cod consumer lsn xid failing seq (ch ∷ chs) st ≡ ok st'
      → (mid : Store) × (persist_change cod consumer lsn xid seq (is_seq failing seq) ch st
          ≡ ok mid)
        × (persist_changes cod consumer lsn xid failing (suc seq) chs mid ≡ ok st')
  unfolding persist_changes
  persist_changes_step failing seq ch chs st st' e =
      at (persist_change cod consumer lsn xid seq (is_seq failing seq) ch st) refl e
    where
      at :
          (r : Result Error Store)
          → persist_change cod consumer lsn xid seq (is_seq failing seq) ch st ≡ r
          → (r >>= persist_changes cod consumer lsn xid failing (suc seq) chs) ≡ ok st'
          → (mid : Store) × (persist_change cod consumer lsn xid seq (is_seq failing seq) ch st
              ≡ ok mid)
            × (persist_changes cod consumer lsn xid failing (suc seq) chs mid ≡ ok st')
      at (ok mid) eq e = (mid, eq, e)
      at (err x) eq e = cc

  -- The loop keeps every row.
  persist_changes_keeps :
      (failing : Option ℕ) (seq : ℕ) (chs : List Change) (st st' : Store) (c l : Text) (q : ℕ)
      → persist_changes cod consumer lsn xid failing seq chs st ≡ ok st'
      → has_row c l q st.change_log ≡ true
      → has_row c l q st'.change_log ≡ true
  persist_changes_keeps failing seq [] st st' c l q e h =
      let eq : st ≡ st' = unfold persist_changes in cc in rw (← eq) h
  persist_changes_keeps failing seq (ch ∷ chs) st st' c l q e h =
      let (mid, one, rest) = persist_changes_step failing seq ch chs st st' e in
      let (old, (new, (_, _, eq))) =
        change_cases cod consumer lsn xid seq (is_seq failing seq) ch st mid one in
      persist_changes_keeps failing (suc seq) chs mid st' c l q rest
        (rw eq (has_row-insert_row c l q (row_of cod consumer lsn xid seq ch old new) st h))

  -- The loop leaves a row for each change, with its place in the transaction.
  pub persist_changes-Logged :
      (failing : Option ℕ) (seq : ℕ) (chs : List Change) (st st' : Store)
      → persist_changes cod consumer lsn xid failing seq chs st ≡ ok st'
      → Logged consumer (cod.print_lsn lsn) seq chs st'.change_log
  persist_changes-Logged failing seq [] st st' e = tt
  persist_changes-Logged failing seq (ch ∷ chs) st st' e =
      let (mid, one, rest) = persist_changes_step failing seq ch chs st st' e in
      let (old, (new, (_, _, eq))) =
        change_cases cod consumer lsn xid seq (is_seq failing seq) ch st mid one in
      let r = row_of cod consumer lsn xid seq ch old new in
      (
        persist_changes_keeps failing (suc seq) chs mid st' consumer (cod.print_lsn lsn) seq rest
            (rw eq (has_row-insert_row_self r st)),
        persist_changes-Logged failing (suc seq) chs mid st' rest,
      )

  -- The loop adds nothing where each change has its row.
  persist_changes_again :
      (failing : Option ℕ) (seq : ℕ) (chs : List Change) (st st' : Store)
      → persist_changes cod consumer lsn xid failing seq chs st ≡ ok st'
      → Logged consumer (cod.print_lsn lsn) seq chs st.change_log
      → st'.change_log ≡ st.change_log
  persist_changes_again failing seq [] st st' e h =
      let eq : st ≡ st' = unfold persist_changes in cc in ap (λ s. s.change_log) (sym eq)
  persist_changes_again failing seq (ch ∷ chs) st st' e h =
      let (mid, one, rest) = persist_changes_step failing seq ch chs st st' e in
      let (old, (new, (_, _, eq))) =
        change_cases cod consumer lsn xid seq (is_seq failing seq) ch st mid one in
      let same : mid.change_log ≡ st.change_log =
        rw eq (insert_row_again (row_of cod consumer lsn xid seq ch old new) st h.0) in
      persist_changes_again failing (suc seq) chs mid st' rest (rw same h.1) ∙ same

  -- The state that a durable transaction commits.
  abbrev committed_state : Store → Store
  committed_state tx = record tx { checkpoint = insert consumer (cod.print_lsn lsn) tx.checkpoint }

  finish_cases :
      (w : Commit) (st tx : Store)
      → ((finish w st tx).0 ≡ tx) ⊎ SameTables st (finish w st tx).0 × ((finish w st tx).1 ≢ none)
  unfolding finish roll_back
  finish_cases committed st tx = inl refl
  finish_cases answer_lost st tx = inl refl
  finish_cases rolled_back st tx = inr ((refl, refl), λ e. cc)

  pub persist_cases :
      (w : Weather) (chs : List Change) (st : Store)
      → ((tx : Store) × (persist_changes cod consumer lsn xid w.failing 0 chs st ≡ ok tx)
          × ((persist cod consumer w lsn xid chs st).0 ≡ committed_state tx))
        ⊎ SameTables st (persist cod consumer w lsn xid chs st).0
          × ((persist cod consumer w lsn xid chs st).1 ≢ none)
  unfolding persist roll_back
  persist_cases w chs st = elim (Bool-cases w.begins) [
    | inr b ↦ inr ((ground arith, ground arith), λ e. ground arith)
    | inl b ↦ elim (Result-cases (persist_changes cod consumer lsn xid w.failing 0 chs st)) [
      | inr (x, p) ↦ inr ((ground arith, ground arith), λ e. ground arith)
      | inl (tx, p) ↦ elim (Bool-cases w.upserts) [
        | inr u ↦ inr ((ground arith, ground arith), λ e. ground arith)
        | inl u ↦ elim (finish_cases w.commit st (committed_state tx)) [
          | inl f ↦ inl (tx, p, ground arith)
          | inr ((f, f'), g) ↦ inr ((ground arith, ground arith), λ e. g (ground arith))
        ]
      ]
    ]
  ]

  -- A transaction that is sent again after a crash, when its changes are in the change log, adds
  -- no row, whatever the database answers.
  pub persist_again :
      (w : Weather) (chs : List Change) (st : Store)
      → Logged consumer (cod.print_lsn lsn) 0 chs st.change_log
      → (persist cod consumer w lsn xid chs st).0.change_log ≡ st.change_log
  persist_again w chs st h = elim (persist_cases w chs st) [
    | inr ((same, _), fails) ↦ same
    | inl (tx, p, eq) ↦ rw eq (persist_changes_again w.failing 0 chs st tx p h)
  ]
