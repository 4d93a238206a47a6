-- ===== src/Engine/Subscribe.antt =====
-- handleSubscribe and subscribeShape of engine.go: a session that subscribes resumes its stream,
-- gets a snapshot of the stream's cache, or starts the stream anew from a snapshot of the table.
pub mod Queue
pub mod Reply
pub mod Bound
pub mod Keeps
mod Tests
use tether.Prelude.{
  Bool, true, false, List, [], ◌∷◌, Option, none, some, Text, txt, ℤ, pos, ◌<z◌, ◌=z◌, Result, ok,
  err, ◌>>=◌, map_err, Dict, lookup, insert, if◌then◌else◌,
}
use tether.Engine.Dispatch.{enqueue_change, send_err}
use tether.Engine.Error.{Error, slow_client, marshal_failed, shape_failed}
use tether.Engine.Key.{stream_key}
use tether.Engine.Session.{Session, resume_at, add_shape}
use tether.Shape.Apply.{load_snapshot}
use tether.Shape.Error.{Error as ShapeError}
use tether.Shape.Filter.{Filter}
use tether.Shape.Instance.{Definition, Instance, new_instance, materialized}
use tether.Shape.Log.{Event, after, last_offset}
use tether.Shape.Registry.{Registry, get}
use tether.Transport
use tether.Transport.{Message, Conn, enqueue, send_bye}
use tether.Value.{Runtime, Row}
use tether.Wal.Change.{Lsn}

-- What snapshot.Take returns: the snapshot's LSN and its rows.
pub record Taken : Type 0 where
  pub lsn : Lsn
  pub rows : List (Option Row)

-- The streams, the connection, and the error that is returned, if any.
abbrev pub Subscribed : Type 0 → Type 0
Subscribed C = Dict (Instance C) × (Conn × Option Error)

-- What a subscription calls: the marshalling of messages, fmt, the text of an LSN, the host's
-- WithClaimsKey, and snapshot.Take on a schema, a table and a filter.
pub record Services (C : Type 0) : Type 0 where
  pub marshals : Message → Bool
  pub go : Runtime
  pub print_lsn : Lsn → Text
  pub claims_key : C → Text
  pub take : Text → Text → Filter → Result Error Taken

module _ {C : Type 0} (sv : Services C) where
  -- The loop over the events that a resuming client missed.
  unfoldable pub resume_events : Text → List Event → Conn → Conn × Option Error
  resume_events shape_name [] c = (c, none)
  resume_events shape_name (ev ∷ evs) c =
      let (c', sent) = enqueue_change sv.marshals shape_name ev c in
      let rest = resume_events shape_name evs c' in
      if sent then rest else (send_bye (txt "slow_client") c', some slow_client)

  -- A snapshot message on its way: an error if it does not marshal or the client is too slow.
  unfoldable pub send_snapshot : Message → Conn → Conn × Option Error
  send_snapshot m c =
      let (c', sent) = enqueue m c in
      if sv.marshals m
      then (if sent then (c', none) else (send_bye (txt "slow_client") c', some slow_client))
      else (c, some marshal_failed)

  -- The snapshot of a stream that is live already.
  unfoldable pub cached_snapshot : Text → Instance C → Message
  cached_snapshot shape_name inst =
      Transport.snapshot shape_name (txt "0/0") (last_offset inst.log) (materialized inst)

  -- The snapshot of a stream that begins.
  unfoldable pub taken_snapshot : Text → Taken → Instance C → Message
  taken_snapshot shape_name snap inst =
      Transport.snapshot shape_name (sv.print_lsn snap.lsn) (last_offset inst.log) snap.rows

  loaded : Taken → Instance C × Option ShapeError → Result Error (Instance C × Taken)
  loaded snap (inst, none) = ok (inst, snap)
  loaded snap (inst, some e) = err (shape_failed e)

  -- NewInstance, Take and LoadSnapshot.
  unfoldable pub begin_stream : Definition C → C → Result Error (Instance C × Taken)
  unfolding loaded
  begin_stream def claims = do
    inst ← map_err shape_failed (new_instance def claims)
    snap ← sv.take def.schema def.table inst.filter
    loaded snap (load_snapshot sv.go snap.lsn snap.rows inst)

  -- The last part of subscribeShape: the new instance takes the place of the old one, if any.
  unfoldable pub subscribe_new : Definition C → C → Dict (Instance C) → Conn → Subscribed C
  subscribe_new def claims streams c = elim (begin_stream def claims) [
    | err e ↦ (streams, (c, some e))
    | ok (inst, snap) ↦
        let reply = send_snapshot (taken_snapshot def.name snap inst) c in
        (insert (stream_key def.name (sv.claims_key claims)) inst streams, reply)
  ]

  -- A client with a resume offset, on a live stream.
  unfoldable pub subscribe_resume :
      Definition C → C → ℤ → Instance C → Dict (Instance C) → Conn → Subscribed C
  subscribe_resume def claims offset inst streams c =
      let (events, there) = after offset inst.log in
      if there
      then (streams, resume_events def.name events c)
      else subscribe_new def claims streams
          (send_err sv.marshals (txt "must_resnapshot") def.name c)

  -- A client on a live stream: with an offset, with none, or with a negative one.
  unfoldable pub subscribe_live :
      Definition C → C → ℤ → Instance C → Dict (Instance C) → Conn → Subscribed C
  subscribe_live def claims offset inst streams c =
      if pos 0 <z offset
      then subscribe_resume def claims offset inst streams c
      else if offset =z pos 0
      then (streams, send_snapshot (cached_snapshot def.name inst) c)
      else subscribe_new def claims streams c

  -- subscribeShape
  unfoldable pub subscribe_shape : Definition C → Dict (Instance C) → Session C → Subscribed C
  subscribe_shape def streams s =
      elim (lookup (stream_key def.name (sv.claims_key s.claims)) streams) [
        | none ↦ subscribe_new def s.claims streams s.conn
        | some inst ↦ subscribe_live def s.claims (resume_at def.name s) inst streams s.conn
      ]

  -- One name of the loop of handleSubscribe, which ends at the first error.
  unfoldable pub subscribe_name :
      Registry C
      → Text
      → Dict (Instance C)
      → Session C
      → Dict (Instance C) × Session C × Option Error
  subscribe_name reg name streams s = elim (get name reg) [
    | none ↦
        (streams, record s { conn = send_err sv.marshals (txt "unknown_shape") name s.conn }, none)
    | some def ↦
        let (streams', (c, e)) = subscribe_shape def streams s in
        (
          streams',
          elim e [ none ↦ add_shape name (record s { conn = c }) | some x ↦ record s { conn = c } ],
          e,
        )
  ]

  -- handleSubscribe, behind ensurePool
  unfoldable pub handle_subscribe :
      Registry C
      → List Text
      → Dict (Instance C)
      → Session C
      → Dict (Instance C) × Session C × Option Error
  handle_subscribe reg [] streams s = (streams, s, none)
  handle_subscribe reg (name ∷ names) streams s =
      let (streams', s', e) = subscribe_name reg name streams s in
      elim e [ none ↦ handle_subscribe reg names streams' s' | some x ↦ (streams', s', some x) ]
