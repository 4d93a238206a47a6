-- ===== src/Wal/Store/Rows.antt =====
-- The rows that `persist` writes, and the changes that they hold.
use tether.Prelude.{
  ℕ, Bool, true, false, Option, none, some, Text, ◌≡◌, refl, Result, ok, err, ◌>>=◌, if◌then◌else◌,
  arith,
}
use tether.Value.{Row}
use tether.Wal.Change.{Change, Lsn}
use tether.Wal.Error.{Error, insert_failed}
use tether.Wal.Store.{Codecs, LogRow, row_of, Store, insert_row, marshal_row, persist_change}

-- A stored row, NULL or JSON, is the row of a change.
abbrev pub IsStored : Codecs → Option Row → Option Text → Type 0
IsStored cod none t = t ≡ none
IsStored cod (some r) t = (json : Text) × (cod.marshal r ≡ some json) × (t ≡ some json)

-- A row of the change log holds a change, with its place in a transaction of a consumer: every
-- column but the id.
pub record Holds (cod : Codecs) (consumer : Text) (lsn : Lsn) (xid seq : ℕ) (ch : Change)
    (r : LogRow) : Type 0 where
  pub consumer_of : r.consumer_id ≡ consumer
  pub lsn_of : r.lsn ≡ cod.print_lsn lsn
  pub xid_of : r.xid ≡ xid
  pub seq_of : r.seq ≡ seq
  pub schema_of : r.schema_name ≡ ch.schema
  pub table_of : r.table_name ≡ ch.table
  pub op_of : r.op ≡ ch.op
  pub fingerprint_of : r.relation_fingerprint ≡ ch.relation_fingerprint
  pub old_of : IsStored cod ch.old r.old_row
  pub new_of : IsStored cod ch.new r.new_row

marshal_row-IsStored :
    (cod : Codecs) (row : Option Row) (t : Option Text)
    → marshal_row cod row ≡ ok t
    → IsStored cod row t
unfolding marshal_row
marshal_row-IsStored cod none t e = cc
marshal_row-IsStored cod (some r) t e = at (cod.marshal r) refl e
  where
    at :
        (m : Option Text)
        → cod.marshal r ≡ m
        → marshal_row cod (some r) ≡ ok t
        → (json : Text) × (cod.marshal r ≡ some json) × (t ≡ some json)
    at none em e = ground arith
    at (some json) em e = (json, em, ground arith)

module _ (cod : Codecs) (consumer : Text) (lsn : Lsn) (xid : ℕ) where
  -- A round of the loop that succeeds has marshalled both rows, and is the insert of a row.
  pub change_cases :
      (seq : ℕ) (fails : Bool) (ch : Change) (st st' : Store)
      → persist_change cod consumer lsn xid seq fails ch st ≡ ok st'
      → (old : Option Text) × ((new : Option Text) × ((marshal_row cod ch.old ≡ ok old)
            × (marshal_row cod ch.new ≡ ok new)
            × (st' ≡ insert_row (row_of cod consumer lsn xid seq ch old new) st)))
  unfolding persist_change
  change_cases seq fails ch st st' e =
      at (marshal_row cod ch.old) (marshal_row cod ch.new) fails refl refl e
    where
      at :
          (a b : Result Error (Option Text)) (fails : Bool)
          → marshal_row cod ch.old ≡ a
          → marshal_row cod ch.new ≡ b
          → (do
            old ← a
            new ← b
            if fails
                then err insert_failed
                else ok (insert_row (row_of cod consumer lsn xid seq ch old new) st))
            ≡ ok st'
          → (old : Option Text) × ((new : Option Text) × ((marshal_row cod ch.old ≡ ok old)
                × (marshal_row cod ch.new ≡ ok new)
                × (st' ≡ insert_row (row_of cod consumer lsn xid seq ch old new) st)))
      at (err x) b fails ea eb e = cc
      at (ok old) (err x) fails ea eb e = cc
      at (ok old) (ok new) true ea eb e = cc
      at (ok old) (ok new) false ea eb e = (old, (new, (ea, eb, cc)))

  pub row_of-Holds :
      (seq id : ℕ) (ch : Change) (old new : Option Text)
      → marshal_row cod ch.old ≡ ok old
      → marshal_row cod ch.new ≡ ok new
      → Holds cod consumer lsn xid seq ch
          (record (row_of cod consumer lsn xid seq ch old new) { id = id })
  row_of-Holds seq id ch old new eo en = record {
    consumer_of = refl;
    lsn_of = refl;
    xid_of = refl;
    seq_of = refl;
    schema_of = refl;
    table_of = refl;
    op_of = refl;
    fingerprint_of = refl;
    old_of = marshal_row-IsStored cod ch.old old eo;
    new_of = marshal_row-IsStored cod ch.new new en;
  }
