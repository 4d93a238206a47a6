-- ===== src/Engine/Dispatch.antt =====
-- dispatchChange of engine.go, with enqueueChange, sendErr and disconnect: a change is applied to
-- every stream, and the events go to the sessions that are subscribed to the stream's shape.
pub mod FanOut
mod Tests
use tether.Prelude.{
  Bool, true, false, not, ◌||◌, List, [], ◌∷◌, ◌++◌, Option, none, some, Text, txt, Result, ok, err,
  Dict, map, if◌then◌else◌,
}
use tether.Engine.Key.{shape_of}
use tether.Engine.Session.{Session, has_shape}
use tether.Shape.Apply.{apply}
use tether.Shape.Error.{Error, is_schema_drift, is_halted}
use tether.Shape.Instance.{Instance}
use tether.Shape.Log.{Event}
use tether.Transport
use tether.Transport.{Message, Conn, enqueue, send_bye}
use tether.Value.{Runtime}
use tether.Wal.Change.{Change}

-- The streams by key, and the sessions by connection, in the order of the maps' iterations.
pub record Engine (C : Type 0) : Type 0 where
  pub streams : Dict (Instance C)
  pub sessions : Dict (Session C)

unfoldable pub change_message : Text → Event → Message
change_message shape_name ev = Transport.change shape_name ev.offset ev.op ev.row

-- json.Marshal may refuse a message (a row with a NaN, say); it is code of the standard library.
module _ (marshals : Message → Bool) where
  -- enqueueChange: an event that does not marshal is skipped.
  unfoldable pub enqueue_change : Text → Event → Conn → Conn × Bool
  unfolding change_message
  enqueue_change shape_name ev c =
      if marshals (change_message shape_name ev)
      then enqueue (change_message shape_name ev) c
      else (c, true)

  -- The loop over one stream's events: a client that is too slow is disconnected.
  unfoldable pub send_events : Text → List Event → Conn → Conn
  send_events shape_name [] c = c
  send_events shape_name (ev ∷ evs) c =
      let (c', sent) = enqueue_change shape_name ev c in
      let rest = send_events shape_name evs c' in
      if sent then rest else send_bye (txt "slow_client") c'

  -- The events of the streams that gave any, for one session.
  unfoldable pub send_results : {C : Type 0} → Session C → List (Text × List Event) → Conn → Conn
  send_results s [] c = c
  send_results s ((shape_name, evs) ∷ results) c =
      send_results s results (if has_shape shape_name s then send_events shape_name evs c else c)

  unfoldable pub deliver : {C : Type 0} → List (Text × List Event) → Session C → Session C
  unfolding send_results
  deliver results s = record s { conn = send_results s results s.conn }

  -- sendErr
  unfoldable pub send_err : Text → Text → Conn → Conn
  send_err code shape_name c =
      if marshals (Transport.error code shape_name)
      then (enqueue (Transport.error code shape_name) c).0
      else c

  module _ {C : Type 0} (go : Runtime) where
    -- The error of one stream, to the sessions of its shape.
    unfoldable pub report : Text → Error → Session C → Session C
    unfolding send_err
    report shape_name e s =
        if is_schema_drift e || is_halted e
        then if has_shape shape_name s
          then record s { conn = send_err (txt "shape_halted") shape_name s.conn }
          else s
        else s

    map_sessions : (Session C → Session C) → Dict (Session C) → Dict (Session C)
    map_sessions f [] = []
    map_sessions f ((id, s) ∷ ss) = (id, f s) ∷ map_sessions f ss

    -- One round of the loop over the streams: the stream, the sessions, and its results.
    unfoldable pub apply_stream :
        Change
        → Text
        → Instance C
        → Dict (Session C)
        → Instance C × Dict (Session C) × List (Text × List Event)
    unfolding map_sessions report
    apply_stream ch key inst ss =
        let (inst', r) = apply go ch inst in
        elim r [
          | err e ↦ (inst', map_sessions (report (shape_of key) e) ss, [])
          | ok [] ↦ (inst', ss, [])
          | ok (ev ∷ evs) ↦ (inst', ss, (shape_of key, ev ∷ evs) ∷ [])
        ]

    unfoldable pub apply_streams :
        Change
        → Dict (Instance C)
        → Dict (Session C)
        → Dict (Instance C) × Dict (Session C) × List (Text × List Event)
    unfolding apply_stream
    apply_streams ch [] ss = ([], ss, [])
    apply_streams ch ((key, inst) ∷ streams) ss =
        let (inst', ss', now) = apply_stream ch key inst ss in
        let (streams', ss'', later) = apply_streams ch streams ss' in
        ((key, inst') ∷ streams', ss'', now ++ later)

    -- dispatchChange
    unfoldable pub dispatch_change : Change → Engine C → Engine C
    unfolding apply_streams map_sessions deliver
    dispatch_change ch e =
        let (streams, sessions, results) = apply_streams ch e.streams e.sessions in
        record { streams = streams; sessions = map_sessions (deliver results) sessions }
