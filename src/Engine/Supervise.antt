-- ===== src/Engine/Supervise.antt =====
-- The supervision of engine.go: sweepIdleClients, broadcastMustResnapshot, handleSlotLagExceeded
-- and resetFanoutCursor, and one tick of runConsumerCycle.
pub mod Idle
pub mod Reset
pub mod Tick
mod Tests
use tether.Prelude.{
  ℕ, suc, ◌+◌, ◌-◌, ◌≤◌, Bool, true, false, not, ◌&&◌, List, [], ◌∷◌, ◌++◌, Option, none, some,
  Text, txt, ◌=t◌, ℤ, pos, negsuc, ◌<z◌, ltb, Dict, map, erase, Result, ok, err, if◌then◌else◌,
}
use tether.Engine.Cursor.{Answer, Feed, FanError, fan_out_new_changes}
use tether.Engine.Dispatch.{Engine}
use tether.Engine.Session.{Session, is_idle, clear_membership}
use tether.Transport
use tether.Transport.{Message, Conn, Hub, enqueue, send_bye, remove}
use tether.Value.{Runtime}
use tether.Wal.Catalog.{Catalog, PgError}
use tether.Wal.Slot.{SlotError, Waiting, release, drop_slot, slot_lag_bytes}
use tether.Wal.Store.{Codecs, LogRow, Store}

pub data LagError : Type 0 where
  drop_lagged : SlotError → LagError
  clear_failed reset_failed : LagError

-- How the database answers handleSlotLagExceeded: the wait for the slot's holder, an error
-- of the drop, and whether the two statements behind it succeed.
pub record LagAnswer : Type 0 where
  pub waits : Waiting
  pub drop_fault : Option PgError
  pub deletes : Bool
  pub selects : Bool

-- What the loop of runConsumerCycle works on: the cursor with the engine, the hub, and the database.
pub record World (C : Type 0) : Type 0 where
  pub feed : Feed C
  pub hub : Hub
  pub store : Store
  pub catalog : Catalog

pub data TickEnd : Type 0 where
  goes_on restarts : TickEnd
  returns : LagError → TickEnd

-- The options that a tick reads.
pub record Options : Type 0 where
  pub slot_name : Text
  pub max_slot_lag : ℤ
  pub max_client_idle : ℤ

-- What a tick meets: the answers to its fan-out and to the query for the lag, the time, and, if the
-- lag is too large, whether the server still holds the slot when the consumer has ended and its
-- connection is closed, and the answers to handleSlotLagExceeded.
pub record TickAnswer : Type 0 where
  pub fan : Answer
  pub queries : Bool
  pub now : ℕ
  pub lingers : Bool
  pub drop : LagAnswer

abbrev pub resnapshot_message : Message
resnapshot_message = Transport.error (txt "must_resnapshot") []

-- resetFanoutCursor: COALESCE(MAX(id), 0) over the consumer's rows.
unfoldable pub max_id : List LogRow → ℕ
max_id [] = 0
max_id (r ∷ rs) =
    let rest = max_id rs in
    if r.consumer_id =t txt "tether-engine" && ltb rest r.id then r.id else rest

module _ {C : Type 0} where
  -- The loop of sweepIdleClients: the sessions that stay, and those that are idle.
  unfoldable pub split_idle : ℕ → Dict (Session C) → Dict (Session C) × List (Session C)
  split_idle cutoff [] = ([], [])
  split_idle cutoff ((id, s) ∷ ss) =
      let (stay, idle) = split_idle cutoff ss in
      if is_idle cutoff s then (stay, s ∷ idle) else ((id, s) ∷ stay, idle)

  -- The second loop: a bye, and the connection leaves the hub.
  unfoldable pub dismiss : List (Session C) → Hub → List (Session C) × Hub
  dismiss [] h = ([], h)
  dismiss (s ∷ ss) h =
      let (gone, h') = dismiss ss (remove s.conn.id h) in
      (record s { conn = send_bye (txt "idle_client") s.conn } ∷ gone, h')

  -- sweepIdleClients at the time `now`: the engine, the sessions that it dismissed, and the hub.
  unfoldable pub sweep_idle_clients : ℤ → ℕ → Engine C → Hub → Engine C × List (Session C) × Hub
  sweep_idle_clients (pos (suc idle)) now e h =
      let (stay, out) = split_idle (now - suc idle) e.sessions in
      let (gone, h') = dismiss out h in (record e { sessions = stay }, gone, h')
  sweep_idle_clients _ now e h = (e, [], h)

  -- One session of broadcastMustResnapshot.
  unfoldable pub tell_resnapshot : Session C → Session C
  tell_resnapshot s =
      let (c, sent) = enqueue resnapshot_message s.conn in
      record s { conn = if sent then c else send_bye (txt "slow_client") c }

  unfoldable pub each_session : (Session C → Session C) → Dict (Session C) → Dict (Session C)
  each_session f [] = []
  each_session f ((id, s) ∷ ss) = (id, f s) ∷ each_session f ss

  -- broadcastMustResnapshot
  unfoldable pub broadcast_must_resnapshot : (Message → Bool) → Engine C → Engine C
  broadcast_must_resnapshot marshals e =
      if marshals resnapshot_message
      then record e { sessions = each_session tell_resnapshot e.sessions }
      else e

  -- handleSlotLagExceeded: where an error stops it, what came before stands.
  unfoldable pub handle_slot_lag_exceeded :
      (Message → Bool) → LagAnswer → Text → World C → World C × Option LagError
  unfolding max_id
  handle_slot_lag_exceeded marshals a slot w =
      let told = broadcast_must_resnapshot marshals w.feed.engine in
      let e : Engine C = record {
        streams = [];
        sessions = each_session clear_membership told.sessions;
      } in
      let (cat, failed) = drop_slot a.waits a.drop_fault slot w.catalog in
      let w' : World C = record w { feed = record w.feed { engine = e }; catalog = cat } in
      let cleared : World C = record w' {
        store = record w'.store { checkpoint = erase (txt "tether-engine") w'.store.checkpoint };
      } in
      elim failed [
        | some x ↦ (w', some (drop_lagged x))
        | none ↦
            if not a.deletes
            then (w', some clear_failed)
            else if not a.selects
            then (cleared, some reset_failed)
            else (
              record cleared {
                feed = record cleared.feed { cursor = max_id cleared.store.change_log };
              },
              none,
            )
      ]

  -- How one tick of runConsumerCycle ends: the loop goes on, it restarts the consumer, or it returns.
  -- Before the slot is dropped the consumer is ended, and its connection closed.
  unfoldable pub after_lag :
      (Message → Bool) → Options → TickAnswer → World C → Result SlotError ℤ → World C × TickEnd
  after_lag marshals o a w (err x) = (w, goes_on)
  after_lag marshals o a w (ok lag) =
      let ended : World C = record w { catalog = release a.lingers o.slot_name w.catalog } in
      let (w', failed) = handle_slot_lag_exceeded marshals a.drop o.slot_name ended in
      if pos 0 <z o.max_slot_lag && o.max_slot_lag <z lag
      then (w', elim failed [ none ↦ restarts | some x ↦ returns x ])
      else (w, goes_on)

  -- The ticker's case of runConsumerCycle, without the logging and the metrics.
  unfoldable pub tick :
      Codecs → (Message → Bool) → Runtime → Options → TickAnswer → World C → World C × TickEnd
  unfolding after_lag
  tick cod marshals go o a w =
      let feed = (fan_out_new_changes cod marshals go a.fan w.store.change_log w.feed).0 in
      let (e, _, h) = sweep_idle_clients o.max_client_idle a.now feed.engine w.hub in
      let w' : World C = record w { feed = record feed { engine = e }; hub = h } in
      after_lag marshals o a w' (slot_lag_bytes a.fan.has_pool a.queries o.slot_name w'.catalog)
