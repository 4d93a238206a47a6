-- ===== src/Wal/Change.antt =====
-- The change type of internal/wal/decode.go.
use tether.Prelude.{ℕ, Option, Text}
use tether.Value.{Row}

-- Op is a string type; the engine also reads it back from a text column, hence `other_op`.
pub data Op : Type 0 where
  insert update delete : Op
  other_op : Text → Op

-- An LSN is a uint64; 0 means that it is not known.
abbrev pub Lsn : Type 0
Lsn = ℕ

pub record Change : Type 0 where
  pub schema : Text
  pub table : Text
  pub op : Op
  pub relation_fingerprint : Text
  pub commit_lsn : Lsn
  pub old : Option Row
  pub new : Option Row
