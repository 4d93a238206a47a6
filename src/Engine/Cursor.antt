-- ===== src/Engine/Cursor.antt =====
-- fanOutNewChanges of engine.go: the rows of the change log behind a cursor, turned back into
-- changes and dispatched.
pub mod Once
pub mod Runs
mod Tests
use tether.Prelude.{
  ℕ, zero, suc, ◌<◌, ltb, Bool, true, false, not, ◌&&◌, List, [], ◌∷◌, ◌++◌, Option, none, some,
  Text, txt, ◌=t◌, if◌then◌else◌,
}
use tether.Engine.Dispatch.{Engine, dispatch_change}
use tether.Transport.{Message}
use tether.Value.{Runtime, Row}
use tether.Wal.Change.{Change, Lsn}
use tether.Wal.Store.{Codecs, LogRow}

-- The errors of fanOutNewChanges.
pub data FanError : Type 0 where
  pool_closed query_failed scan_failed parse_lsn_failed rows_failed : FanError

-- decodeJSONMap: nil for NULL, for no bytes, and for bytes that are no JSON object.
unfoldable pub decode_json_map : Codecs → Option Text → Option Row
decode_json_map cod none = none
decode_json_map cod (some []) = none
decode_json_map cod (some (b ∷ bs)) = cod.unmarshal (b ∷ bs)

unfoldable pub change_of_row : Codecs → Lsn → LogRow → Change
unfolding decode_json_map
change_of_row cod lsn r = record {
  schema = r.schema_name;
  table = r.table_name;
  op = r.op;
  relation_fingerprint = r.relation_fingerprint;
  commit_lsn = lsn;
  old = decode_json_map cod r.old_row;
  new = decode_json_map cod r.new_row;
}

-- WHERE consumer_id = $1 AND id > $2, on the change log in the order of id.
unfoldable pub above : ℕ → List LogRow → List LogRow
above n [] = []
above n (r ∷ rs) =
    let rest = above n rs in
    if r.consumer_id =t txt "tether-engine" && ltb n r.id then r ∷ rest else rest

-- How the database answers one fan-out: whether the pool is open, whether the query succeeds, after
-- how many rows reading fails, if it does, and whether the rows end without an error.
pub record Answer : Type 0 where
  pub has_pool : Bool
  pub queries : Bool
  pub failing : Option ℕ
  pub ends : Bool

-- The number of rows that are still read, behind one.
one_less : Option ℕ → Option ℕ
one_less none = none
one_less (some zero) = some zero
one_less (some (suc n)) = some n

stuck : Option ℕ → Bool
stuck (some zero) = true
stuck _ = false

-- The cursor lastID and the engine.
pub record Feed (C : Type 0) : Type 0 where
  pub cursor : ℕ
  pub engine : Engine C

module _ (cod : Codecs) (marshals : Message → Bool) (go : Runtime) {C : Type 0} where
  -- One row that was read: the cursor moves before the LSN is parsed.
  unfoldable pub fan_row : LogRow → Feed C → Feed C × Option FanError
  unfolding change_of_row
  fan_row r fd = elim (cod.parse_lsn r.lsn) [
    | none ↦ (record fd { cursor = r.id }, some parse_lsn_failed)
    | some lsn ↦ (
      record {
        cursor = r.id;
        engine = dispatch_change marshals go (change_of_row cod lsn r) fd.engine;
      },
      none,
    )
  ]

  -- The loop over the rows, and the error of its end.
  unfoldable pub fan_rows : Option ℕ → Bool → List LogRow → Feed C → Feed C × Option FanError
  unfolding one_less stuck
  fan_rows failing ends [] fd = (fd, if ends then none else some rows_failed)
  fan_rows failing ends (r ∷ rs) fd =
      let (fd', e) = fan_row r fd in
      let rest = fan_rows (one_less failing) ends rs fd' in
      if stuck failing
      then (fd, some scan_failed)
      else elim e [ some x ↦ (fd', some x) | none ↦ rest ]

  -- fanOutNewChanges
  unfoldable pub fan_out_new_changes : Answer → List LogRow → Feed C → Feed C × Option FanError
  fan_out_new_changes w log fd =
      if not w.has_pool
      then (fd, some pool_closed)
      else if not w.queries
      then (fd, some query_failed)
      else fan_rows w.failing w.ends (above fd.cursor log) fd
