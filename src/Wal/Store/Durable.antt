-- ===== src/Wal/Store/Durable.antt =====
-- What a durable transaction that returns no error has written.
use tether.Prelude.{
  ℕ, suc, ◌≤◌, ◌==◌, true, false, List, [], ◌∷◌, ◌++◌, none, some, Option, Text, ◌≡◌, refl, ap, sym,
  ◌∙◌, ok, lookup, lookup-insert_self, arith, ◌⊎◌, inl, inr, Bool-cases,
}
use mathlib.Core.List.Memᴰ
use mathlib.Core.List.{Memᴰ, append_assoc, append-nil}
use tether.Wal.Change.{Change, Lsn}
use tether.Wal.Store.Rows.{Holds, change_cases, row_of-Holds}
use tether.Wal.Store.Twice.{
  Logged, has_row-append, persist_changes_step, persist_changes-Logged, persist_cases,
}
use tether.Wal.Store.{
  Codecs, LogRow, row_of, Store, has_row, insert_row, is_seq, persist_changes, Weather, persist,
}

-- An insert leaves the rows of other sequence numbers.
has_row-insert_other :
    (c l : Text) (q : ℕ) (r : LogRow) (st : Store)
    → (r.seq == q) ≡ false
    → has_row c l q (insert_row r st).change_log ≡ has_row c l q st.change_log
unfolding insert_row
has_row-insert_other c l q r st e =
    ground (arith, has_row-append c l q st.change_log (record r { id = st.next_id }))

-- An insert adds at the end, if it adds.
insert_row_grows :
    (r : LogRow) (st : Store)
    → (new : List LogRow) × ((insert_row r st).change_log ≡ st.change_log ++ new)
unfolding insert_row
insert_row_grows r st = elim (Bool-cases (has_row r.consumer_id r.lsn r.seq st.change_log)) [
  | inl there ↦ ([], ground (arith, append-nil st.change_log))
  | inr fresh ↦ (record r { id = st.next_id } ∷ [], ground arith)
]

module _ (cod : Codecs) (consumer : Text) (lsn : Lsn) (xid : ℕ) where
  -- Each change, from a sequence number on, has its key in the log before, or is held by a row
  -- of the log after.
  abbrev pub Written : List LogRow → List LogRow → ℕ → List Change → Type 0
  Written before log seq [] = Unit
  Written before log seq (ch ∷ chs) =
      ((has_row consumer (cod.print_lsn lsn) seq before ≡ true)
        ⊎ ((r : LogRow) × Memᴰ r log × Holds cod consumer lsn xid seq ch r))
      × Written before log (suc seq) chs

  Written-back :
      (before before' log : List LogRow) (seq : ℕ) (chs : List Change)
      → ((q : ℕ)
          → seq ≤ q
          → has_row consumer (cod.print_lsn lsn) q before
            ≡ has_row consumer (cod.print_lsn lsn) q before')
      → Written before log seq chs
      → Written before' log seq chs
  Written-back before before' log seq [] same h = tt
  Written-back before before' log seq (ch ∷ chs) same (one, h) = (
    elim one [ inl there ↦ inl (sym (same seq (omega arith)) ∙ there) | inr held ↦ inr held ],
    Written-back before before' log (suc seq) chs (λ q le. same q (omega (arith, le))) h,
  )

  persist_changes_grows :
      (failing : Option ℕ) (seq : ℕ) (chs : List Change) (st st' : Store)
      → persist_changes cod consumer lsn xid failing seq chs st ≡ ok st'
      → (new : List LogRow) × (st'.change_log ≡ st.change_log ++ new)
  persist_changes_grows failing seq [] st st' e =
      let eq : st ≡ st' = unfold persist_changes in cc in
      ([], rw (← eq) (sym (append-nil st.change_log)))
  persist_changes_grows failing seq (ch ∷ chs) st st' e =
      let (mid, one, rest) =
        persist_changes_step cod consumer lsn xid failing seq ch chs st st' e in
      let (old, (new, (_, _, eq))) =
        change_cases cod consumer lsn xid seq (is_seq failing seq) ch st mid one in
      let (xs, ex) = insert_row_grows (row_of cod consumer lsn xid seq ch old new) st in
      let (ys, ey) = persist_changes_grows failing (suc seq) chs mid st' rest in
      let em : mid.change_log ≡ st.change_log ++ xs = ap (λ s. s.change_log) eq ∙ ex in
      (xs ++ ys, ey ∙ ap (λ l. l ++ ys) em ∙ append_assoc st.change_log xs ys)

  -- The row of one change, if its key is new.
  insert_row_holds :
      (seq : ℕ) (ch : Change) (old new : Option Text) (st : Store)
      → has_row consumer (cod.print_lsn lsn) seq st.change_log ≡ false
      → (insert_row (row_of cod consumer lsn xid seq ch old new) st).change_log
        ≡ st.change_log
          ++ record (row_of cod consumer lsn xid seq ch old new) { id = st.next_id } ∷ []
  unfolding insert_row
  insert_row_holds seq ch old new st e = ground arith

  persist_changes-Written :
      (failing : Option ℕ) (seq : ℕ) (chs : List Change) (st st' : Store)
      → persist_changes cod consumer lsn xid failing seq chs st ≡ ok st'
      → Written st.change_log st'.change_log seq chs
  persist_changes-Written failing seq [] st st' e = tt
  persist_changes-Written failing seq (ch ∷ chs) st st' e =
      let (mid, one, rest) =
        persist_changes_step cod consumer lsn xid failing seq ch chs st st' e in
      let (old, (new, (eo, en, eq))) =
        change_cases cod consumer lsn xid seq (is_seq failing seq) ch st mid one in
      let r = row_of cod consumer lsn xid seq ch old new in
      let (ys, ey) = persist_changes_grows failing (suc seq) chs mid st' rest in
      let later = persist_changes-Written failing (suc seq) chs mid st' rest in
      (
        elim (Bool-cases (has_row consumer (cod.print_lsn lsn) seq st.change_log)) [
          | inl there ↦ inl there
          | inr fresh ↦
              let r' = record r { id = st.next_id } in
              let em : mid.change_log ≡ st.change_log ++ r' ∷ [] =
                ap (λ s. s.change_log) eq ∙ insert_row_holds seq ch old new st fresh in
              inr (
                r',
                rw ey (
                    Memᴰ.append_left ys (rw em (Memᴰ.append_right st.change_log (Memᴰ.head refl)))),
                row_of-Holds cod consumer lsn xid seq st.next_id ch old new eo en,
              )
        ],
        Written-back mid.change_log st.change_log st'.change_log (suc seq) chs
            (λ q le.
              ap (λ s. has_row consumer (cod.print_lsn lsn) q s.change_log) eq
              ∙ has_row-insert_other consumer (cod.print_lsn lsn) q r st (ground (arith, le)))
            later,
      )

  -- A durable transaction that returns no error has moved the checkpoint to its LSN, keeps every
  -- row of the change log, and has for each of its changes, in order, a row with its consumer, LSN
  -- and place; unless that key was there before, the row holds the change, its schema, table,
  -- operation, fingerprint and both rows as JSON.
  pub persist_durable :
      (w : Weather) (chs : List Change) (st : Store)
      → (persist cod consumer w lsn xid chs st).1 ≡ none
      → let st' = (persist cod consumer w lsn xid chs st).0 in
        (lookup consumer st'.checkpoint ≡ some (cod.print_lsn lsn))
        × ((new : List LogRow) × (st'.change_log ≡ st.change_log ++ new))
        × Logged consumer (cod.print_lsn lsn) 0 chs st'.change_log
        × Written st.change_log st'.change_log 0 chs
  persist_durable w chs st e = elim (persist_cases cod consumer lsn xid w chs st) [
    | inr (same, fails) ↦ absurd (fails e)
    | inl (tx, p, eq) ↦ rw eq (
      lookup-insert_self consumer (cod.print_lsn lsn) tx.checkpoint,
      persist_changes_grows w.failing 0 chs st tx p,
      persist_changes-Logged cod consumer lsn xid w.failing 0 chs st tx p,
      persist_changes-Written w.failing 0 chs st tx p,
    )
  ]
