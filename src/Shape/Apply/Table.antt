-- ===== src/Shape/Apply/Table.antt =====
-- The specification of a shape: the rows of the database table that its filter admits.
pub mod Refine
pub mod Handoff
pub mod Load
mod Tests
use tether.Prelude.{
  Bool, true, false, Option, none, some, Text, Result, ok, err, ◌≡◌, refl, if◌then◌else◌, ◌=t◌,
  List, arith, insert, erase, lookup,
}
use tether.Shape.Apply.Plan.{Plan, quiet, fail, write, remove, perform}
use tether.Shape.Error.{Error}
use tether.Shape.Filter.{Filter, match_row}
use tether.Shape.Filter.Matching.{SameRow}
use tether.Shape.Instance.{Instance, Cache, cached, store, drop_row, emit}
use tether.Shape.Instance.Laws.{cached-insert, cached-erase}
use tether.Shape.Key.{pk_key}
use tether.Shape.Log.{EventOp, append}
use tether.Value.{Runtime, Row, column, clone_row, clone_row_lem}
use tether.Wal.Change.{Change, Op}

-- The table's rows by printed primary key.
abbrev pub Table : Type 0
Table = Text → Option Row

abbrev pub put_row : Text → Option Row → Table → Table
put_row key row t j = if key =t j then row else t j

unfoldable pub put_keyed : Result Error Text → Option Row → Table → Table
put_keyed (ok key) row t = put_row key row t
put_keyed (err e) row t = t

pub put_keyed_ok :
    (r : Result Error Text) (key : Text) (row : Option Row) (t : Table)
    → r ≡ ok key
    → put_keyed r row t ≡ put_row key row t
unfolding put_keyed
put_keyed_ok r key row t e = rw e

-- What a change does to the table.
unfoldable pub commit_op : Runtime → List Text → Op → Change → Table → Table
commit_op go pk Op.insert ch t = put_keyed (pk_key go pk ch.new) ch.new t
commit_op go pk Op.update ch t = put_keyed (pk_key go pk ch.new) ch.new t
commit_op go pk Op.delete ch t = put_keyed (pk_key go pk ch.old) none t
commit_op go pk (Op.other_op op) ch t = t

unfoldable pub commit : Runtime → List Text → Change → Table → Table
unfolding commit_op
commit go pk ch t = commit_op go pk ch.op ch t

-- The new row n of an update leaves out no column that the row r has.
abbrev pub Covers : Row → Row → Type 0
Covers n r = (c : Text) → column c (some n) ≡ none → column c (some r) ≡ none

-- The change says all of what the database did to the table: an insert brings a key that was not
-- there, a delete names its key, and an update brings the whole new row under the same key.
pub record DescribesInsert (go : Runtime) (pk : List Text) (ch : Change) (t : Table) : Type 0 where
  pub n : Row
  pub key : Text
  pub new : ch.new ≡ some n
  pub keyed : pk_key go pk (some n) ≡ ok key
  pub fresh : t key ≡ none

pub record DescribesDelete (go : Runtime) (pk : List Text) (ch : Change) (t : Table) : Type 0 where
  pub o : Row
  pub key : Text
  pub old : ch.old ≡ some o
  pub keyed : pk_key go pk (some o) ≡ ok key

pub record DescribesUpdate (go : Runtime) (pk : List Text) (ch : Change) (t : Table) : Type 0 where
  pub n : Row
  pub r : Row
  pub key : Text
  pub new : ch.new ≡ some n
  pub keyed : pk_key go pk (some n) ≡ ok key
  pub present : t key ≡ some r
  pub whole : Covers n r
  pub old_keyed : (o : Row) → ch.old ≡ some o → pk_key go pk (some o) ≡ ok key
  pub old_whole : (o : Row) → ch.old ≡ some o → Covers n o

abbrev pub Describes : Runtime → List Text → Op → Change → Table → Type 0
Describes go pk Op.insert ch t = DescribesInsert go pk ch t
Describes go pk Op.delete ch t = DescribesDelete go pk ch t
Describes go pk Op.update ch t = DescribesUpdate go pk ch t
Describes go pk (Op.other_op op) ch t = ⊥

-- A cached row, or none, stands for a row of the table, or none.
abbrev pub Agrees : Runtime → Filter → Option Row → Option Row → Type 0
Agrees go f (some c) (some t) = SameRow c t × (match_row go f (some t) ≡ ok true)
Agrees go f (some c) none = ⊥
Agrees go f none (some t) = match_row go f (some t) ≡ ok false
Agrees go f none none = Unit

-- The cache holds exactly the rows of the table that the filter admits, each under its key.
abbrev pub Represents : {C : Type 0} → Runtime → Instance C → Table → Type 0
Represents go inst t = (key : Text) → Agrees go inst.filter (cached key inst.cache) (t key)

-- What a plan leaves at a key.
unfoldable pub cell : Plan → Text → Option Row → Option Row
cell quiet j v = v
cell (fail e) j v = v
cell (write op key row) j v = if key =t j then row else v
cell (remove key row) j v = if key =t j then none else v

pub cached-perform :
    {C : Type 0} (p : Plan) (j : Text) (inst : Instance C)
    → cached j (perform p inst).0.cache ≡ cell p j (cached j inst.cache)
unfolding perform cell emit store drop_row
cached-perform quiet j inst = refl
cached-perform (fail e) j inst = refl
cached-perform (write op key row) j inst =
    ground (arith, cached-insert key j row inst.cache, clone_row_lem row)
cached-perform (remove key row) j inst = ground (arith, cached-erase key j inst.cache)

pub filter-perform :
    {C : Type 0} (p : Plan) (inst : Instance C) → (perform p inst).0.filter ≡ inst.filter
unfolding perform emit store drop_row
filter-perform quiet inst = refl
filter-perform (fail e) inst = refl
filter-perform (write op key row) inst = ground arith
filter-perform (remove key row) inst = ground arith

pub snapshot_lsn-perform :
    {C : Type 0} (p : Plan) (inst : Instance C)
    → (perform p inst).0.snapshot_lsn ≡ inst.snapshot_lsn
unfolding perform emit store drop_row
snapshot_lsn-perform quiet inst = refl
snapshot_lsn-perform (fail e) inst = refl
snapshot_lsn-perform (write op key row) inst = ground arith
snapshot_lsn-perform (remove key row) inst = ground arith

pub has_snapshot-perform :
    {C : Type 0} (p : Plan) (inst : Instance C)
    → (perform p inst).0.has_snapshot ≡ inst.has_snapshot
unfolding perform emit store drop_row
has_snapshot-perform quiet inst = refl
has_snapshot-perform (fail e) inst = refl
has_snapshot-perform (write op key row) inst = ground arith
has_snapshot-perform (remove key row) inst = ground arith

pub fingerprint-perform :
    {C : Type 0} (p : Plan) (inst : Instance C) → (perform p inst).0.fingerprint ≡ inst.fingerprint
unfolding perform emit store drop_row
fingerprint-perform quiet inst = refl
fingerprint-perform (fail e) inst = refl
fingerprint-perform (write op key row) inst = ground arith
fingerprint-perform (remove key row) inst = ground arith
