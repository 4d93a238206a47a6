-- ===== src/Wal/Run.antt =====
-- internal/wal/consumer.go: Run, resolveStartLSN, persistAndAck and sendStatus.
pub mod Acks
mod Tests
use tether.Prelude.{
  ℕ, ◌+◌, Bool, not, List, [], ◌∷◌, ◌++◌, Option, none, some, Text, ◌=t◌, ◌==◌, Result, ok, err,
  if◌then◌else◌, lookup, ltb, map,
}
use tether.Wal.Change.{Change, Lsn}
use tether.Wal.Consumer.{
  Config, Act, persisted, acknowledged, Consumer, Logical, relation, begin, insert, update, delete,
  commit, other_message, Received, timeout, context_ended, failed, error_response, not_copy_data,
  empty_data, keepalive, bad_keepalive, bad_xlogdata, bad_logical, other_byte, message, Turn,
  standby_timeout, Outcome, handle_relation, decode_insert, decode_update, decode_delete,
}
use tether.Wal.Error.{
  Error, parse_checkpoint, cancelled, receive_failed, postgres_error, parse_keepalive,
  parse_xlogdata, parse_logical, hook_failed, status_failed,
}
use tether.Wal.Store.{Codecs, Store, persist}

-- resolveStartLSN: the checkpoint, or 0 where there is none.
unfoldable pub resolve_start_lsn : Config → Store → Result Error Lsn
resolve_start_lsn cfg st = elim (lookup cfg.consumer_id st.checkpoint) [
  | none ↦ ok 0
  | some raw ↦
      if raw =t []
      then ok 0
      else elim (cfg.codecs.parse_lsn raw) [ none ↦ err parse_checkpoint | some lsn ↦ ok lsn ]
]

-- sendStatus: only the durable LSN is ever acknowledged.
unfoldable pub send_status : Bool → Consumer → Outcome
send_status sent c =
    if sent
    then (record c { trace = acknowledged c.durable ∷ c.trace }, none)
    else (c, some status_failed)

-- persistAndAck
unfoldable pub persist_and_ack : Config → Turn → Lsn → Consumer → Outcome
unfolding send_status
persist_and_ack cfg t lsn c =
    let (st, e) = persist cfg.codecs cfg.consumer_id t.weather lsn c.cur_xid c.pending c.store in
    elim e [
      | some x ↦ (record c { store = st }, some x)
      | none ↦
          let c' = record c { store = st; trace = persisted lsn ∷ c.trace } in
          if not t.hook_ok
          then (c', some hook_failed)
          else send_status t.status_sent (record c' { durable = lsn })
    ]

-- A decoded change joins the open transaction; an error stops the consumer.
unfoldable pub add_change : Result Error Change → Consumer → Outcome
add_change (err e) c = (c, some e)
add_change (ok ch) c = (record c { pending = c.pending ++ ch ∷ [] }, none)

-- The transaction's end LSN, or the commit's where that is 0.
unfoldable pub end_lsn : Lsn → Lsn → Lsn
end_lsn commit_lsn transaction_end = if transaction_end == 0 then commit_lsn else transaction_end

unfoldable pub stamp : Lsn → List Change → List Change
stamp lsn = map (λ (ch : Change). record ch { commit_lsn = lsn })

clear_pending : Outcome → Outcome
clear_pending (c, none) = (record c { pending = [] }, none)
clear_pending (c, some e) = (c, some e)

-- The type switch on a logical message.
unfoldable pub on_message : Config → Turn → Logical → Consumer → Outcome
unfolding add_change clear_pending
on_message cfg t (relation m) c = handle_relation m c
on_message cfg t (begin xid) c = (record c { pending = []; cur_xid = xid }, none)
on_message cfg t (insert oid new) c = add_change (decode_insert cfg oid new c) c
on_message cfg t (update oid old new) c = add_change (decode_update cfg oid old new c) c
on_message cfg t (delete oid old) c = add_change (decode_delete cfg oid old c) c
on_message cfg t (commit commit_lsn transaction_end) c =
    let lsn = end_lsn commit_lsn transaction_end in
    clear_pending (persist_and_ack cfg t lsn (record c { pending = stamp lsn c.pending }))
on_message cfg t other_message c = (c, none)

-- What the loop does with what it received.
unfoldable pub on_received : Config → Turn → Received → Consumer → Outcome
unfolding on_message
on_received cfg t timeout c = (c, none)
on_received cfg t (context_ended ours) c = if ours then (c, some cancelled) else (c, none)
on_received cfg t failed c = (c, some receive_failed)
on_received cfg t error_response c = (c, some postgres_error)
on_received cfg t not_copy_data c = (c, none)
on_received cfg t empty_data c = (c, none)
on_received cfg t (keepalive reply) c =
    if reply then (record c { next_standby = 0 }, none) else (c, none)
on_received cfg t bad_keepalive c = (c, some parse_keepalive)
on_received cfg t bad_xlogdata c = (c, some parse_xlogdata)
on_received cfg t bad_logical c = (c, some parse_logical)
on_received cfg t other_byte c = (c, none)
on_received cfg t (message m) c = on_message cfg t m c

-- The status update at the head of the loop, when it is due.
unfoldable pub standby : Turn → Consumer → Outcome
unfolding send_status
standby t c =
    if ltb c.next_standby t.now
    then (let (c', e) = send_status t.status_sent c in
        elim e [
          | some x ↦ (c', some x)
          | none ↦ (record c' { next_standby = t.after_status + standby_timeout }, none)
        ])
    else (c, none)

unfoldable pub turn : Config → Turn → Consumer → Outcome
unfolding standby on_received
turn cfg t c =
    if t.ended
    then (c, some cancelled)
    else let (c', e) = standby t c in
      elim e [ some x ↦ (c', some x) | none ↦ on_received cfg t t.received c' ]

-- Run, from the state behind StartReplication on, through the turns that it gets.
unfoldable pub run_turns : Config → List Turn → Consumer → Outcome
run_turns cfg [] c = (c, none)
run_turns cfg (t ∷ ts) c =
    let (c', e) = turn cfg t c in
    let rest = run_turns cfg ts c' in elim e [ some x ↦ (c', some x) | none ↦ rest ]

-- The consumer that Run starts with.
unfoldable pub start : Config → ℕ → Store → Result Error Consumer
start cfg now st = elim (resolve_start_lsn cfg st) [
  | err e ↦ err e
  | ok lsn ↦ ok (record {
    rels = [];
    durable = lsn;
    next_standby = now + standby_timeout;
    pending = [];
    cur_xid = 0;
    store = st;
    trace = [];
  })
]
