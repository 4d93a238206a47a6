-- ===== src/Wal/Run/Acks.antt =====
-- Invariant 1 of the repository: nothing is acknowledged before it is durable.
use tether.Prelude.{
  ℕ, ◌+◌, ltb, Bool, true, false, not, List, [], ◌∷◌, Option, none, some, ◌≡◌, refl, ◌⊎◌, inl, inr,
  Result, ok, err, arith, if◌then◌else◌,
}
use tether.Wal.Change.{Change, Lsn}
use tether.Wal.Consumer.{
  Config, Act, persisted, acknowledged, Consumer, Logical, relation, begin, insert, update, delete,
  commit, other_message, Received, keepalive, context_ended, message, Turn, Outcome,
  handle_relation, decode_insert, decode_update, decode_delete, standby_timeout,
}
use tether.Wal.Error.{Error, hook_failed, cancelled}
use tether.Wal.Run.{
  send_status, persist_and_ack, add_change, clear_pending, on_message, on_received, standby, turn,
  run_turns, end_lsn, stamp, start,
}
use tether.Wal.Relation.{RelationMessage}
use tether.Wal.Store.{Store, persist}

-- An LSN that a durable commit in the trace returned for.
abbrev pub Persisted : Lsn → List Act → Type 0
Persisted l [] = ⊥
Persisted l (persisted k ∷ tr) = (k ≡ l) ⊎ Persisted l tr
Persisted l (acknowledged k ∷ tr) = Persisted l tr

-- Each acknowledgement in the trace is of the start LSN, or of one whose durable commit had
-- returned before it.
abbrev pub InOrder : Lsn → List Act → Type 0
InOrder start [] = Unit
InOrder start (persisted k ∷ tr) = InOrder start tr
InOrder start (acknowledged k ∷ tr) = ((k ≡ start) ⊎ Persisted k tr) × InOrder start tr

pub record IsSafe (begin_lsn : Lsn) (c : Consumer) : Type 0 where
  pub in_order : InOrder begin_lsn c.trace
  pub durable : (c.durable ≡ begin_lsn) ⊎ Persisted c.durable c.trace

module _ (begin_lsn : Lsn) where
  send_status-IsSafe :
      (sent : Bool) (c : Consumer) → IsSafe begin_lsn c → IsSafe begin_lsn (send_status sent c).0
  unfolding send_status
  send_status-IsSafe true c h = record { in_order = (h.durable, h.in_order); durable = h.durable }
  send_status-IsSafe false c h = h

  -- A property of the state that both a failed and a finished part leave.
  either_state :
      (P : Consumer → Type 0) (e : Option Error) (x : Error → Outcome) (y : Outcome)
      → ((w : Error) → P (x w).0)
      → P y.0
      → P (elim e as (λ _. Outcome) [ some w ↦ x w | none ↦ y ]).0
  either_state P none x y hx hy = hy
  either_state P (some w) x y hx hy = hx w

  either_if :
      (P : Consumer → Type 0) (b : Bool) (x y : Outcome) → P x.0 → P y.0 → P (if b then x else y).0
  either_if P true x y hx hy = hx
  either_if P false x y hx hy = hy

  persist_and_ack-IsSafe :
      (cfg : Config) (t : Turn) (l : Lsn) (c : Consumer)
      → IsSafe begin_lsn c
      → IsSafe begin_lsn (persist_and_ack cfg t l c).0
  unfolding persist_and_ack
  persist_and_ack-IsSafe cfg t l c h =
      let (st, e) = persist cfg.codecs cfg.consumer_id t.weather l c.cur_xid c.pending c.store in
      let c' : Consumer = record c { store = st; trace = persisted l ∷ c.trace } in
      let later : (c.durable ≡ begin_lsn) ⊎ Persisted c.durable (persisted l ∷ c.trace) =
        elim h.durable [ inl s ↦ inl s | inr p ↦ inr (inr p) ] in
      let acked : IsSafe begin_lsn (send_status t.status_sent (record c' { durable = l })).0 =
        send_status-IsSafe t.status_sent (record c' { durable = l })
          (record { in_order = h.in_order; durable = inr (inl refl) }) in
      either_state (IsSafe begin_lsn) e (λ x. (record c { store = st }, some x))
        (if not t.hook_ok
          then (c', some hook_failed)
          else send_status t.status_sent (record c' { durable = l }))
        (λ x. record { in_order = h.in_order; durable = h.durable })
        (either_if (IsSafe begin_lsn) (not t.hook_ok) (c', some hook_failed)
          (send_status t.status_sent (record c' { durable = l }))
          (record { in_order = h.in_order; durable = later }) acked)

  add_change-IsSafe :
      (r : Result Error Change) (c : Consumer)
      → IsSafe begin_lsn c
      → IsSafe begin_lsn (add_change r c).0
  unfolding add_change
  add_change-IsSafe (ok ch) c h = record { in_order = h.in_order; durable = h.durable }
  add_change-IsSafe (err e) c h = h

  clear_pending-IsSafe : (o : Outcome) → IsSafe begin_lsn o.0 → IsSafe begin_lsn (clear_pending o).0
  unfolding clear_pending
  clear_pending-IsSafe (c, none) h = record { in_order = h.in_order; durable = h.durable }
  clear_pending-IsSafe (c, some e) h = h

  -- A relation message touches neither the durable LSN nor the trace.
  handle_relation_same :
      (m : RelationMessage) (c : Consumer)
      → ((handle_relation m c).0.durable ≡ c.durable) × ((handle_relation m c).0.trace ≡ c.trace)
  unfolding handle_relation
  handle_relation_same m c = ground arith

  on_message-IsSafe :
      (cfg : Config) (t : Turn) (m : Logical) (c : Consumer)
      → IsSafe begin_lsn c
      → IsSafe begin_lsn (on_message cfg t m c).0
  unfolding on_message
  on_message-IsSafe cfg t (relation m) c h =
      let (d, tr) = handle_relation_same m c in
      record { in_order = rw tr h.in_order; durable = rw (d, tr) h.durable }
  on_message-IsSafe cfg t (begin xid) c h = record { in_order = h.in_order; durable = h.durable }
  on_message-IsSafe cfg t (insert oid new) c h = add_change-IsSafe (decode_insert cfg oid new c) c h
  on_message-IsSafe cfg t (update oid old new) c h =
      add_change-IsSafe (decode_update cfg oid old new c) c h
  on_message-IsSafe cfg t (delete oid old) c h = add_change-IsSafe (decode_delete cfg oid old c) c h
  on_message-IsSafe cfg t (commit a b) c h =
      clear_pending-IsSafe
        (persist_and_ack cfg t (end_lsn a b) (record c { pending = stamp (end_lsn a b) c.pending }))
        (persist_and_ack-IsSafe cfg t (end_lsn a b)
          (record c { pending = stamp (end_lsn a b) c.pending })
          (record { in_order = h.in_order; durable = h.durable }))
  on_message-IsSafe cfg t other_message c h = h

  on_received-IsSafe :
      (cfg : Config) (t : Turn) (r : Received) (c : Consumer)
      → IsSafe begin_lsn c
      → IsSafe begin_lsn (on_received cfg t r c).0
  unfolding on_received
  on_received-IsSafe cfg t (context_ended true) c h = h
  on_received-IsSafe cfg t (context_ended false) c h = h
  on_received-IsSafe cfg t (keepalive true) c h = record {
    in_order = h.in_order;
    durable = h.durable;
  }
  on_received-IsSafe cfg t (keepalive false) c h = h
  on_received-IsSafe cfg t (message m) c h = on_message-IsSafe cfg t m c h
  on_received-IsSafe cfg t _ c h = h

  standby-IsSafe : (t : Turn) (c : Consumer) → IsSafe begin_lsn c → IsSafe begin_lsn (standby t c).0
  unfolding standby
  standby-IsSafe t c h =
      let (c', e) = send_status t.status_sent c in
      let sent = send_status-IsSafe t.status_sent c h in
      let next : Outcome = (record c' { next_standby = t.after_status + standby_timeout }, none) in
      either_if (IsSafe begin_lsn) (ltb c.next_standby t.now)
        (elim e [ some x ↦ (c', some x) | none ↦ next ]) (c, none)
        (either_state (IsSafe begin_lsn) e (λ x. (c', some x)) next (λ x. sent)
          (record { in_order = sent.in_order; durable = sent.durable }))
        h

  turn-IsSafe :
      (cfg : Config) (t : Turn) (c : Consumer)
      → IsSafe begin_lsn c
      → IsSafe begin_lsn (turn cfg t c).0
  unfolding turn
  turn-IsSafe cfg t c h =
      let (c', e) = standby t c in
      let h' = standby-IsSafe t c h in
      either_if (IsSafe begin_lsn) t.ended (c, some cancelled)
        (elim e [ some x ↦ (c', some x) | none ↦ on_received cfg t t.received c' ]) h
        (either_state (IsSafe begin_lsn) e (λ x. (c', some x)) (on_received cfg t t.received c')
          (λ x. h') (on_received-IsSafe cfg t t.received c' h'))

  run_turns-IsSafe :
      (cfg : Config) (ts : List Turn) (c : Consumer)
      → IsSafe begin_lsn c
      → IsSafe begin_lsn (run_turns cfg ts c).0
  unfolding run_turns
  run_turns-IsSafe cfg [] c h = h
  run_turns-IsSafe cfg (t ∷ ts) c h =
      let (c', e) = turn cfg t c in
      let h' = turn-IsSafe cfg t c h in
      either_state (IsSafe begin_lsn) e (λ x. (c', some x)) (run_turns cfg ts c') (λ x. h')
        (run_turns-IsSafe cfg ts c' h')

start_trace :
    (cfg : Config) (now : ℕ) (st : Store) (c : Consumer) → start cfg now st ≡ ok c → c.trace ≡ []
unfolding start
start_trace cfg now st c e = ground arith

-- From the start of Run on, through any turns whatever, errors and crashes of the hook included
-- (a crash ends the list of turns anywhere), every status update that was sent acknowledges the
-- start LSN or an LSN for which a durable commit had returned before.
pub run_turns-InOrder :
    (cfg : Config) (now : ℕ) (st : Store) (ts : List Turn) (c : Consumer)
    → start cfg now st ≡ ok c
    → InOrder c.durable (run_turns cfg ts c).0.trace
run_turns-InOrder cfg now st ts c e =
    (run_turns-IsSafe c.durable cfg ts c
      (record { in_order = rw (start_trace cfg now st c e) tt; durable = inl refl })).in_order
