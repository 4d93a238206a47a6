-- ===== src/Wal/Error.antt =====
-- The errors of internal/wal, one constructor for each message.
use tether.Prelude.{ℕ, Text}

pub data Error : Type 0 where
  -- ErrSchemaDrift
  schema_drift : Text → Text → Error
  -- ErrNotConfigured
  not_configured : Error
  unknown_relation : ℕ → Error
  index_out_of_range : Error
  unknown_tuple_type : Text → Error
  parse_checkpoint load_checkpoint start_replication : Error
  cancelled receive_failed postgres_error : Error
  parse_keepalive parse_xlogdata parse_logical : Error
  begin_failed marshal_failed insert_failed upsert_failed commit_failed hook_failed status_failed :
      Error
