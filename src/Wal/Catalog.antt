-- ===== src/Wal/Catalog.antt =====
-- The parts of Postgres's catalog that internal/wal reads and changes, and what the database answers.
use tether.Prelude.{Bool, Option, List, Text, Dict}
use tether.Wal.Change.{Lsn}

-- A row of pg_replication_slots. A slot may hold no WAL yet.
pub record Slot : Type 0 where
  pub active : Bool
  pub restart_lsn : Option Lsn

-- A schema and a table of it.
abbrev pub Qualified : Type 0
Qualified = Text × Text

-- The slots by name, the tables of each publication, and pg_current_wal_lsn().
pub record Catalog : Type 0 where
  pub slots : Dict Slot
  pub publications : Dict (List Qualified)
  pub current_lsn : Lsn

-- An error of a call: the SQLSTATE, if it comes from the database, and the text.
pub record PgError : Type 0 where
  pub code : Option Text
  pub message : Text
