-- ===== src/Wal/Store/Total.antt =====
-- When a durable transaction returns no error.
use tether.Prelude.{
  ℕ, suc, ◌+◌, ◌≤◌, ◌<◌, Bool, true, false, List, [], ◌∷◌, Option, none, some, Text, ◌≡◌, refl, ◌⊎◌,
  inl, inr, ◌↔◌, ok, err, All, length, arith, Bool-cases, ltb, insert, Result-cases,
}
use tether.Value.{Row}
use tether.Wal.Change.{Change, Lsn}
use tether.Wal.Error.{insert_failed}
use tether.Wal.Store.Rows.{change_cases}
use tether.Wal.Store.Twice.{persist_changes_step}
use tether.Wal.Store.{
  Codecs, row_of, Store, insert_row, marshal_row, persist_change, is_seq, persist_changes, Commit,
  committed, rolled_back, answer_lost, Weather, finish, persist,
}

-- json.Marshal takes a row; it is not called on nil.
abbrev pub Encodes : Codecs → Option Row → Type 0
Encodes cod none = Unit
Encodes cod (some r) = (json : Text) × (cod.marshal r ≡ some json)

abbrev pub Marshals : Codecs → Change → Type 0
Marshals cod ch = Encodes cod ch.old × Encodes cod ch.new

-- The refused insert, if any, is none of those from a sequence number on, of this many.
abbrev pub Spares : Option ℕ → ℕ → ℕ → Type 0
Spares failing seq n = (q : ℕ) → failing ≡ some q → (q < seq) ⊎ (seq + n ≤ q)

marshal_row-Encodes :
    (cod : Codecs) (row : Option Row)
    → ((t : Option Text) × (marshal_row cod row ≡ ok t)) ↔ Encodes cod row
unfolding marshal_row
marshal_row-Encodes cod none = (λ e. tt, λ e. (none, refl))
marshal_row-Encodes cod (some r) = at (cod.marshal r) refl
  where
    at :
        (m : Option Text)
        → cod.marshal r ≡ m
        → ((t : Option Text) × (marshal_row cod (some r) ≡ ok t))
          ↔ ((json : Text) × (cod.marshal r ≡ some json))
    at none em = (λ (t, e). ground arith, λ (t, e). cc)
    at (some json) em = (λ e. (json, em), λ e. (some json, rw (em, marshal_row) refl))

module _ (cod : Codecs) (consumer : Text) (lsn : Lsn) (xid : ℕ) where
  not_failing :
      (seq : ℕ) (fails : Bool) (ch : Change) (st mid : Store)
      → persist_change cod consumer lsn xid seq fails ch st ≡ ok mid
      → fails ≡ false
  unfolding persist_change
  not_failing seq false ch st mid e = refl
  not_failing seq true ch st mid e =
      let (old, (new, (eo, en, _))) = change_cases cod consumer lsn xid seq true ch st mid e in
      let bad : err insert_failed ≡ ok mid = rw (eo, en) at e in cc

  change_goes :
      (seq : ℕ) (ch : Change) (st : Store)
      → Marshals cod ch
      → (mid : Store) × (persist_change cod consumer lsn xid seq false ch st ≡ ok mid)
  unfolding persist_change
  change_goes seq ch st (o, n) =
      let (old, eo) = (marshal_row-Encodes cod ch.old).1 o in
      let (new, en) = (marshal_row-Encodes cod ch.new).1 n in
      (insert_row (row_of cod consumer lsn xid seq ch old new) st, rw (eo, en) refl)

  is_seq-Spares :
      (failing : Option ℕ) (seq n : ℕ) → Spares failing seq (suc n) → is_seq failing seq ≡ false
  is_seq-Spares none seq n h = refl
  is_seq-Spares (some q) seq n h = elim (h q refl) [ inl a ↦ ground arith | inr b ↦ ground arith ]

  Spares-next :
      (failing : Option ℕ) (seq n : ℕ) → Spares failing seq (suc n) → Spares failing (suc seq) n
  Spares-next failing seq n h q e = elim (h q e) [
    | inl a ↦ inl (omega arith)
    | inr b ↦ inr (omega arith)
  ]

  Spares-cons :
      (failing : Option ℕ) (seq n : ℕ)
      → is_seq failing seq ≡ false
      → Spares failing (suc seq) n
      → Spares failing seq (suc n)
  Spares-cons none seq n f h q e = cc
  Spares-cons (some p) seq n f h q e =
      let same : p ≡ q = cc in
      elim (h q e) [ inl a ↦ inl (ground arith) | inr b ↦ inr (omega arith) ]

  join :
      (failing : Option ℕ) (seq : ℕ) (ch : Change) (chs : List Change) (st mid tx : Store)
      → is_seq failing seq ≡ false
      → persist_change cod consumer lsn xid seq false ch st ≡ ok mid
      → persist_changes cod consumer lsn xid failing (suc seq) chs mid ≡ ok tx
      → persist_changes cod consumer lsn xid failing seq (ch ∷ chs) st ≡ ok tx
  unfolding persist_changes
  join failing seq ch chs st mid tx f one rest = rw (f, one) rest

  persist_changes_iff :
      (failing : Option ℕ) (seq : ℕ) (chs : List Change) (st : Store)
      → ((tx : Store) × (persist_changes cod consumer lsn xid failing seq chs st ≡ ok tx))
        ↔ All (Marshals cod) chs × Spares failing seq (length chs)
  persist_changes_iff failing seq [] st =
      (λ _. (tt, λ q e. apart q), λ _. (st, unfold persist_changes in refl))
    where
      apart : (q : ℕ) → (q < seq) ⊎ (seq + 0 ≤ q)
      apart q = elim (Bool-cases (ltb q seq)) [
        | inl a ↦ inl (ground arith)
        | inr b ↦ inr (ground arith)
      ]
  persist_changes_iff failing seq (ch ∷ chs) st = (
    λ (tx, e).
        let (mid, one, rest) =
          persist_changes_step cod consumer lsn xid failing seq ch chs st tx e in
        let (old, (new, (eo, en, _))) =
          change_cases cod consumer lsn xid seq (is_seq failing seq) ch st mid one in
        let (ms, sp) = (persist_changes_iff failing (suc seq) chs mid).0 (tx, rest) in
        (
          (
            (
              (marshal_row-Encodes cod ch.old).0 (old, eo),
              (marshal_row-Encodes cod ch.new).0 (new, en),
            ),
            ms,
          ),
          Spares-cons failing seq (length chs) (not_failing seq (is_seq failing seq) ch st mid one)
              sp,
        ),
    λ ((m, ms), sp).
        let f = is_seq-Spares failing seq (length chs) sp in
        let (mid, one) = change_goes seq ch st m in
        let (tx, rest) =
          (persist_changes_iff failing (suc seq) chs mid).1
            (ms, Spares-next failing seq (length chs) sp) in
        (tx, join failing seq ch chs st mid tx f one rest),
  )

  committed_only :
      (how : Commit) (st tx : Store) → ((finish how st tx).1 ≡ none) ↔ (how ≡ committed)
  unfolding finish
  committed_only committed st tx = (λ _. refl, λ _. refl)
  committed_only rolled_back st tx = (λ e. cc, λ e. cc)
  committed_only answer_lost st tx = (λ e. cc, λ e. cc)

  -- Behind the inserts.
  ends_iff :
      (w : Weather) (chs : List Change) (st tx : Store)
      → w.begins ≡ true
      → persist_changes cod consumer lsn xid w.failing 0 chs st ≡ ok tx
      → w.upserts ≡ true
      → ((persist cod consumer w lsn xid chs st).1 ≡ none) ↔ (w.commit ≡ committed)
  unfolding persist
  ends_iff w chs st tx b p u =
      rw (b, p, u)
        (committed_only w.commit st
          (record tx { checkpoint = insert consumer (cod.print_lsn lsn) tx.checkpoint }))

  refused :
      (w : Weather) (chs : List Change) (st : Store)
      → (persist cod consumer w lsn xid chs st).1 ≡ none
      → (w.begins ≡ true)
        × ((tx : Store) × (persist_changes cod consumer lsn xid w.failing 0 chs st ≡ ok tx))
        × (w.upserts ≡ true)
  unfolding persist
  refused w chs st e = elim (Bool-cases w.begins) [
    | inr b ↦ absurd (ground arith)
    | inl b ↦ elim (Result-cases (persist_changes cod consumer lsn xid w.failing 0 chs st)) [
      | inr (x, p) ↦ absurd (ground arith)
      | inl (tx, p) ↦ elim (Bool-cases w.upserts) [
        | inr u ↦ absurd (ground arith)
        | inl u ↦ (b, (tx, p), u)
      ]
    ]
  ]

  -- The durable transaction returns no error exactly if the database begins it, json.Marshal takes
  -- every row of its changes that is not nil, the database refuses none of the inserts, one for each
  -- change, nor the checkpoint, and confirms the commit.
  pub persist_succeeds_iff :
      (w : Weather) (chs : List Change) (st : Store)
      → ((persist cod consumer w lsn xid chs st).1 ≡ none) ↔ (
          (w.begins ≡ true)
          × (All (Marshals cod) chs × Spares w.failing 0 (length chs))
          × (w.upserts ≡ true)
          × (w.commit ≡ committed))
  persist_succeeds_iff w chs st =
      let (down, up) = persist_changes_iff w.failing 0 chs st in
      (
        λ e.
            let (b, (tx, p), u) = refused w chs st e in
            (b, down (tx, p), u, (ends_iff w chs st tx b p u).0 e),
        λ (b, fine, u, c). let (tx, p) = up fine in (ends_iff w chs st tx b p u).1 c,
      )
