-- ===== src/Shape/Error.antt =====
-- The errors of internal/shape, one constructor for each message, with what the message shows.
use tether.Prelude.{Bool, true, false, Text}

pub data Error : Type 0 where
  -- ErrSchemaDrift, with the shape's name
  schema_drift : Text → Error
  -- ErrHalted, with the error that halted the log printed behind it
  halted : Error → Error
  no_primary_key : Error
  missing_column : Text → Error
  unknown_pred_op : Error
  unknown_wal_op : Text → Error
  nil_bind name_required bind_required : Error
  -- what the host's bind function returned
  bind_failed : Text → Error
  duplicate_shape : Text → Error
  -- a slice expression out of range panics
  slice_out_of_range : Error
  empty_where not_enough_args too_many_args : Error
  unsupported_fragment : Text → Error
  empty_column : Error
  invalid_column : Text → Error
  empty_filter : Error

-- errors.Is(err, ErrSchemaDrift): `halted` prints its cause by %v and does not wrap it.
abbrev pub is_schema_drift : Error → Bool
is_schema_drift (schema_drift name) = true
is_schema_drift _ = false

-- errors.Is(err, ErrHalted)
abbrev pub is_halted : Error → Bool
is_halted (halted e) = true
is_halted _ = false
