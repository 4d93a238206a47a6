-- ===== src/Engine/Error.antt =====
-- The errors of engine.go, one constructor for each message.
use tether.Prelude.{Text}
use tether.Shape.Error.{Error as ShapeError}

pub data Error : Type 0 where
  slow_client : Error
  marshal_failed : Error
  -- an error of internal/shape, passed on
  shape_failed : ShapeError → Error
  -- an error of internal/snapshot, passed on, with its text
  take_failed : Text → Error
