-- ===== src/Wal/Store.antt =====
-- internal/wal/schema.go and the durable transaction of internal/wal/consumer.go: the tables
-- tether.change_log and tether.checkpoint, and `persist`.
pub mod Rows
pub mod Twice
pub mod Durable
pub mod Fresh
pub mod Total
use tether.Prelude.{
  ℕ, suc, ◌+◌, Bool, true, false, not, ◌&&◌, List, [], ◌∷◌, ◌++◌, Option, none, some, Text, ◌=t◌,
  ◌==◌, Result, ok, err, ◌>>=◌, if◌then◌else◌, Dict, lookup, insert, ◌||◌,
}
use tether.Value.{Row}
use tether.Wal.Change.{Change, Op, Lsn}
use tether.Wal.Error.{
  Error, begin_failed, marshal_failed, insert_failed, upsert_failed, commit_failed,
}

-- encoding/json on a row, and pglogrepl's text of an LSN: code of other packages.
pub record Codecs : Type 0 where
  pub marshal : Row → Option Text
  pub unmarshal : Text → Option Row
  pub print_lsn : Lsn → Text
  pub parse_lsn : Text → Option Lsn

-- A row of tether.change_log.
pub record LogRow : Type 0 where
  pub id : ℕ
  pub consumer_id : Text
  pub lsn : Text
  pub xid : ℕ
  pub seq : ℕ
  pub schema_name : Text
  pub table_name : Text
  pub op : Op
  pub relation_fingerprint : Text
  pub old_row : Option Text
  pub new_row : Option Text

-- change_log in the order of id, checkpoint by consumer, and the sequence behind id.
pub record Store : Type 0 where
  pub change_log : List LogRow
  pub checkpoint : Dict Text
  pub next_id : ℕ

-- The unique constraint (consumer_id, lsn, seq).
unfoldable pub has_row : Text → Text → ℕ → List LogRow → Bool
has_row c l q [] = false
has_row c l q (r ∷ rs) = (r.consumer_id =t c && r.lsn =t l && r.seq == q) || has_row c l q rs

-- INSERT ... ON CONFLICT DO NOTHING; the sequence advances either way.
unfoldable pub insert_row : LogRow → Store → Store
unfolding has_row
insert_row r st =
    let next = record st { next_id = suc st.next_id } in
    if has_row r.consumer_id r.lsn r.seq st.change_log
    then next
    else record next { change_log = st.change_log ++ record r { id = st.next_id } ∷ [] }

-- json.Marshal of a row that is not nil; nil stays NULL.
pub marshal_row : Codecs → Option Row → Result Error (Option Text)
marshal_row cod none = ok none
marshal_row cod (some r) = elim (cod.marshal r) [ none ↦ err marshal_failed | some t ↦ ok (some t) ]

-- The values of the insert; the database gives the id.
abbrev pub row_of : Codecs → Text → Lsn → ℕ → ℕ → Change → Option Text → Option Text → LogRow
row_of cod consumer lsn xid seq ch old new = record {
  id = 0;
  consumer_id = consumer;
  lsn = cod.print_lsn lsn;
  xid = xid;
  seq = seq;
  schema_name = ch.schema;
  table_name = ch.table;
  op = ch.op;
  relation_fingerprint = ch.relation_fingerprint;
  old_row = old;
  new_row = new;
}

-- One round of the loop of `persist`: `fails` says that the database refuses the insert.
unfoldable pub persist_change :
    Codecs → Text → Lsn → ℕ → ℕ → Bool → Change → Store → Result Error Store
unfolding marshal_row
persist_change cod consumer lsn xid seq fails ch st = do
  old ← marshal_row cod ch.old
  new ← marshal_row cod ch.new
  if fails
      then err insert_failed
      else ok (insert_row (row_of cod consumer lsn xid seq ch old new) st)

abbrev is_seq : Option ℕ → ℕ → Bool
is_seq none q = false
is_seq (some i) q = i == q

-- The loop of `persist` from a sequence number on; `failing` is the insert that is refused, if any.
unfoldable pub persist_changes :
    Codecs → Text → Lsn → ℕ → Option ℕ → ℕ → List Change → Store → Result Error Store
persist_changes cod consumer lsn xid failing seq [] st = ok st
persist_changes cod consumer lsn xid failing seq (ch ∷ chs) st = do
  st' ← persist_change cod consumer lsn xid seq (is_seq failing seq) ch st
  persist_changes cod consumer lsn xid failing (suc seq) chs st'

-- A commit that reports an error may have rolled back or, if only the answer was lost, not.
pub data Commit : Type 0 where
  committed rolled_back answer_lost : Commit

-- How the database answers one durable transaction; `drawn` is how many ids the sequence has given
-- it when a change stops it.
pub record Weather : Type 0 where
  pub begins : Bool
  pub failing : Option ℕ
  pub drawn : ℕ
  pub upserts : Bool
  pub commit : Commit

-- ROLLBACK to the state at BEGIN: the tables go back, the sequence behind id does not.
unfoldable pub roll_back : ℕ → Store → Store
roll_back next before = record before { next_id = next }

-- COMMIT of a transaction's state over the state at BEGIN.
unfoldable pub finish : Commit → Store → Store → Store × Option Error
unfolding roll_back
finish committed before tx = (tx, none)
finish rolled_back before tx = (roll_back tx.next_id before, some commit_failed)
finish answer_lost before tx = (tx, some commit_failed)

-- persist: every error between BEGIN and COMMIT rolls back.
unfoldable pub persist :
    Codecs → Text → Weather → Lsn → ℕ → List Change → Store → Store × Option Error
unfolding finish roll_back
persist cod consumer w lsn xid chs st =
    if not w.begins
    then (st, some begin_failed)
    else elim (persist_changes cod consumer lsn xid w.failing 0 chs st) [
      | err e ↦ (roll_back (st.next_id + w.drawn) st, some e)
      | ok tx ↦
          if not w.upserts
          then (roll_back tx.next_id st, some upsert_failed)
          else finish w.commit st
              (record tx { checkpoint = insert consumer (cod.print_lsn lsn) tx.checkpoint })
    ]
