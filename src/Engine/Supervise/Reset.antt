-- ===== src/Engine/Supervise/Reset.antt =====
-- What is left when a lagging slot has been dropped.
use tether.Prelude.{
  ℕ, ◌≤◌, ltb, Bool, true, ◌&&◌, List, [], ◌∷◌, ◌++◌, none, Text, txt, ℤ, pos, ◌<z◌, Dict, lookup,
  erase, lookup-erase_self, Result, ok, err, ◌≡◌, refl, ◌⊎◌, inl, inr, Bool-cases, Option-cases,
  All, length, arith,
}
use tether.Engine.Cursor.{above}
use tether.Engine.Session.{Session, clear_membership}
use tether.Engine.Supervise.{
  LagAnswer, World, resnapshot_message, tell_resnapshot, each_session, broadcast_must_resnapshot,
  max_id, handle_slot_lag_exceeded, restarts, Options, TickAnswer, after_lag,
}
use tether.Transport.{Message, enqueue, send_bye, shutdown}
use tether.Wal.Slot.{SlotError, release, drop_slot}
use tether.Wal.Slot.Drop.{drop_slot-ok}
use tether.Wal.Slot.Laws.{Honest}
use tether.Wal.Store.{LogRow}

-- Nothing of the log is behind a cursor at its largest id.
above_max : (n : ℕ) (rs : List LogRow) → max_id rs ≤ n → above n rs ≡ []
unfolding above max_id
above_max n [] h = refl
above_max n (r ∷ rs) h =
    let rest : max_id rs ≤ n = ground arith in ground (arith, above_max n rs rest)

module _ {C : Type 0} where
  -- A session that was open is told to start over, or it had no room and is disconnected; it is
  -- subscribed to nothing, and has no offset to resume from.
  pub Told : Session C → Type 0
  Told s =
      ((s.conn.closed ≡ true)
        ⊎ ((waiting : List Message) × (s.conn.send ≡ waiting ++ resnapshot_message ∷ [])))
      × (s.shapes ≡ [])
      × (s.resume ≡ [])

  tell_cases :
      (s : Session C)
      → let c = (tell_resnapshot s).conn in
        (c.closed ≡ true)
        ⊎ ((waiting : List Message) × (c.send ≡ waiting ++ resnapshot_message ∷ []))
  unfolding tell_resnapshot enqueue send_bye shutdown
  tell_cases s = elim (Bool-cases s.conn.closed) [
    | inl shut ↦ inl (ground arith)
    | inr open' ↦ elim (Bool-cases (ltb (length s.conn.send) s.conn.capacity)) [
      | inl fits ↦ inr (s.conn.send, ground arith)
      | inr full ↦ inl (ground arith)
    ]
  ]

  each_session-Told :
      (ss : Dict (Session C))
      → All (λ e. Told e.1) (each_session clear_membership (each_session tell_resnapshot ss))
  unfolding each_session Told clear_membership
  each_session-Told [] = tt
  each_session-Told ((id, s) ∷ ss) = ((tell_cases s, refl, refl), each_session-Told ss)

  -- The state of a world after a lagging slot.
  pub record IsReset (slot : Text) (w w' : World C) : Type 0 where
    pub no_streams : w'.feed.engine.streams ≡ []
    pub all_sessions : All (λ e. Told e.1) w'.feed.engine.sessions
    pub no_slot : lookup slot w'.catalog.slots ≡ none
    pub no_checkpoint : lookup (txt "tether-engine") w'.store.checkpoint ≡ none
    pub same_log : w'.store.change_log ≡ w.store.change_log
    pub nothing_left : above w'.feed.cursor w'.store.change_log ≡ []

  -- The world that handleSlotLagExceeded leaves when nothing fails.
  reset_world : (Message → Bool) → LagAnswer → Text → World C → World C
  reset_world marshals a slot w = record {
    feed = record {
      cursor = max_id w.store.change_log;
      engine = record {
        streams = [];
        sessions =
            each_session clear_membership
              (broadcast_must_resnapshot marshals w.feed.engine).sessions;
      };
    };
    hub = w.hub;
    store = record w.store { checkpoint = erase (txt "tether-engine") w.store.checkpoint };
    catalog = (drop_slot a.waits a.drop_fault slot w.catalog).0;
  }

  reset_ends :
      (marshals : Message → Bool) (a : LagAnswer) (slot : Text) (w : World C)
      → (handle_slot_lag_exceeded marshals a slot w).1 ≡ none
      → ((handle_slot_lag_exceeded marshals a slot w).0 ≡ reset_world marshals a slot w)
        × ((drop_slot a.waits a.drop_fault slot w.catalog).1 ≡ none)
  unfolding handle_slot_lag_exceeded reset_world
  reset_ends marshals a slot w e =
      elim (Option-cases (drop_slot a.waits a.drop_fault slot w.catalog).1) [
        | inr (x, bad) ↦ absurd (ground (arith, bad))
        | inl dropped ↦ elim (Bool-cases a.deletes) [
          | inr fails ↦ absurd (ground (arith, dropped, fails))
          | inl deletes ↦ elim (Bool-cases a.selects) [
            | inr fails ↦ absurd (ground (arith, dropped, deletes, fails))
            | inl selects ↦ (ground (arith, dropped, deletes, selects), dropped)
          ]
        ]
      ]

  -- If handleSlotLagExceeded returns no error, then no stream is live, every session is told to start
  -- over or is disconnected, and has no memberships and no resume offsets, the slot and the
  -- checkpoint are gone, and a fan-out has nothing to dispatch: no change from before the drop
  -- reaches a stream that begins after it. The error message must marshal, and another error of the
  -- drop must not be spelled like "does not exist".
  pub handle_slot_lag_exceeded-IsReset :
      (marshals : Message → Bool) (a : LagAnswer) (slot : Text) (w : World C)
      → marshals resnapshot_message ≡ true
      → Honest (txt "42704") (txt "does not exist") a.drop_fault
      → (handle_slot_lag_exceeded marshals a slot w).1 ≡ none
      → IsReset slot w (handle_slot_lag_exceeded marshals a slot w).0
  unfolding reset_world broadcast_must_resnapshot
  handle_slot_lag_exceeded-IsReset marshals a slot w m honest e =
      let (same, dropped) = reset_ends marshals a slot w e in
      let (gone, _) = drop_slot-ok a.waits a.drop_fault slot w.catalog honest dropped in
      rw same (record {
        no_streams = refl;
        all_sessions = rw m (each_session-Told w.feed.engine.sessions);
        no_slot = gone;
        no_checkpoint = lookup-erase_self (txt "tether-engine") w.store.checkpoint;
        same_log = refl;
        nothing_left = above_max (max_id w.store.change_log) w.store.change_log (omega arith);
      })

  -- The world when the consumer has ended and its connection is closed.
  abbrev pub ended : Options → TickAnswer → World C → World C
  ended o a w = record w { catalog = release a.lingers o.slot_name w.catalog }

  -- A tick restarts the consumer only for a lag above a limit that is set, and behind a slot lag that
  -- was handled without an error.
  pub restarts_for :
      (marshals : Message → Bool) (o : Options) (a : TickAnswer) (w : World C)
      (r : Result SlotError ℤ)
      → (after_lag marshals o a w r).1 ≡ restarts
      → (lag : ℤ) × (r ≡ ok lag)
        × ((pos 0 <z o.max_slot_lag && o.max_slot_lag <z lag) ≡ true)
        × ((after_lag marshals o a w r).0
            ≡ (handle_slot_lag_exceeded marshals a.drop o.slot_name (ended o a w)).0)
        × ((handle_slot_lag_exceeded marshals a.drop o.slot_name (ended o a w)).1 ≡ none)
  unfolding after_lag
  restarts_for marshals o a w (err x) e = absurd (ground arith)
  restarts_for marshals o a w (ok lag) e =
      elim (Bool-cases (pos 0 <z o.max_slot_lag && o.max_slot_lag <z lag)) [
        | inr within ↦ absurd (ground (arith, within))
        | inl over ↦
            elim (Option-cases
              (handle_slot_lag_exceeded marshals a.drop o.slot_name (ended o a w)).1) [
                | inr (x, bad) ↦ absurd (ground (arith, over, bad))
                | inl handled ↦ (lag, refl, over, ground (arith, over), handled)
              ]
      ]
