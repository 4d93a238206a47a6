-- ===== src/Engine/Dispatch/FanOut.antt =====
-- What one session gets of the results of a change: all of it in order, or a disconnect.
use tether.Prelude.{
  ◌+◌, ◌<◌, Bool, true, false, List, [], ◌∷◌, ◌++◌, Text, txt, if◌then◌else◌, ◌≡◌, refl, sym, ap,
  ◌∙◌, ◌⊎◌, inl, inr, Bool-cases, length, length-append, ltb, arith,
}
use mathlib.Core.List.{append_assoc, append-nil}
use tether.Engine.Session.{Session, has_shape}
use tether.Engine.Dispatch.{change_message, enqueue_change, send_events, send_results, deliver}
use tether.Shape.Log.{Event}
use tether.Transport.{Message, Conn, enqueue, send_bye, shutdown}

-- From a connection c and messages ms: the buffer took them all, in order, or it had no room for
-- them all and the connection is closed.
unfoldable pub Sent : Conn → List Message → Conn → Type 0
Sent c ms c' =
    ((c'.closed ≡ true) × (c.capacity < length c.send + length ms))
    ⊎ ((c'.closed ≡ false) × (c'.send ≡ c.send ++ ms) × (c'.capacity ≡ c.capacity))

module _ (marshals : Message → Bool) where
  -- The messages of one stream's events.
  unfoldable pub messages : Text → List Event → List Message
  messages shape_name [] = []
  messages shape_name (ev ∷ evs) =
      (if marshals (change_message shape_name ev) then change_message shape_name ev ∷ [] else [])
      ++ messages shape_name evs

  -- The messages of the results for the shapes of a session.
  unfoldable pub due : {C : Type 0} → Session C → List (Text × List Event) → List Message
  due s [] = []
  due s ((shape_name, evs) ∷ results) =
      (if has_shape shape_name s then messages shape_name evs else []) ++ due s results

  pub one_event :
      (shape_name : Text) (ev : Event) (c : Conn)
      → c.closed ≡ false
      → let m = change_message shape_name ev in
        let one = if marshals m then m ∷ [] else [] in
        let (c', sent) = enqueue_change marshals shape_name ev c in
        ((sent ≡ true)
          × (c'.closed ≡ false)
          × (c'.send ≡ c.send ++ one)
          × (c'.capacity ≡ c.capacity))
        ⊎ ((sent ≡ false) × (c' ≡ c) × (c.capacity < length c.send + length one))
  unfolding enqueue_change enqueue
  one_event shape_name ev c open' = elim (Bool-cases (marshals (change_message shape_name ev))) [
    | inr lost ↦ inl (rw lost (refl, open', sym (append-nil c.send), refl))
    | inl good ↦ elim (Bool-cases (ltb (length c.send) c.capacity)) [
      | inl fits ↦ inl (rw (good, open', fits) (refl, refl, refl, refl))
      | inr full ↦ inr (rw (good, open', full) (refl, refl, ground arith))
    ]
  ]

  closed_event :
      (shape_name : Text) (ev : Event) (c : Conn)
      → c.closed ≡ true
      → (enqueue_change marshals shape_name ev c).0 ≡ c
  unfolding enqueue_change enqueue
  closed_event shape_name ev c shut = ground arith

  closed_bye : (reason : Text) (c : Conn) → c.closed ≡ true → send_bye reason c ≡ c
  unfolding send_bye shutdown
  closed_bye reason c shut = ground arith

  bye_closed : (reason : Text) (c : Conn) → (send_bye reason c).closed ≡ true
  unfolding send_bye shutdown
  bye_closed reason c = ground arith

  closed_events :
      (shape_name : Text) (evs : List Event) (c : Conn)
      → c.closed ≡ true
      → send_events marshals shape_name evs c ≡ c
  unfolding send_events
  closed_events shape_name [] c shut = refl
  closed_events shape_name (ev ∷ evs) c shut = ground (
    arith,
    closed_event shape_name ev c shut,
    closed_events shape_name evs c shut,
    closed_bye (txt "slow_client") c shut,
  )

  closed_results :
      {C : Type 0} (s : Session C) (results : List (Text × List Event)) (c : Conn)
      → c.closed ≡ true
      → send_results marshals s results c ≡ c
  unfolding send_results
  closed_results s [] c shut = refl
  closed_results s ((shape_name, evs) ∷ results) c shut =
      ground (arith, closed_events shape_name evs c shut, closed_results s results c shut)

  -- Two parts one after the other: the second leaves a closed connection alone.
  Sent-append :
      (c c' c'' : Conn) (ms ms' : List Message)
      → Sent c ms c'
      → (c'.closed ≡ true → c'' ≡ c')
      → (c'.closed ≡ false → Sent c' ms' c'')
      → Sent c (ms ++ ms') c''
  unfolding Sent
  Sent-append c c' c'' ms ms' (inl (shut, over)) stays goes =
      let same = stays shut in inl (rw same shut, omega (arith, over, length-append ms ms'))
  Sent-append c c' c'' ms ms' (inr (open', send, cap)) stays goes = elim (goes open') [
    | inl (shut, over) ↦ inl (
      shut,
      omega (arith, over, cap, ap length send, length-append c.send ms, length-append ms ms'),
    )
    | inr (o, s, k) ↦ inr (o, s ∙ ap (λ x. x ++ ms') send ∙ append_assoc c.send ms ms', k ∙ cap)
  ]

  events_go :
      (shape_name : Text) (ev : Event) (evs : List Event) (c : Conn)
      → (enqueue_change marshals shape_name ev c).1 ≡ true
      → send_events marshals shape_name (ev ∷ evs) c
        ≡ send_events marshals shape_name evs (enqueue_change marshals shape_name ev c).0
  unfolding send_events
  events_go shape_name ev evs c e = ground arith

  events_stop :
      (shape_name : Text) (ev : Event) (evs : List Event) (c : Conn)
      → (enqueue_change marshals shape_name ev c).1 ≡ false
      → send_events marshals shape_name (ev ∷ evs) c
        ≡ send_bye (txt "slow_client") (enqueue_change marshals shape_name ev c).0
  unfolding send_events
  events_stop shape_name ev evs c e = ground arith

  pub send_events-Sent :
      (shape_name : Text) (evs : List Event) (c : Conn)
      → c.closed ≡ false
      → Sent c (messages shape_name evs) (send_events marshals shape_name evs c)
  unfolding Sent messages
  send_events-Sent shape_name [] c open' =
      unfold send_events in inr (open', sym (append-nil c.send), refl)
  send_events-Sent shape_name (ev ∷ evs) c open' =
      let m = change_message shape_name ev in
      let one = if marshals m then m ∷ [] else [] in
      let c' = (enqueue_change marshals shape_name ev c).0 in
      elim (one_event shape_name ev c open') [
        | inl (e, o, s, k) ↦ rw (events_go shape_name ev evs c e) (
            Sent-append c c' (send_events marshals shape_name evs c') one (messages shape_name evs)
              (inr (o, s, k)) (closed_events shape_name evs c')
              (send_events-Sent shape_name evs c'))
        | inr (e, same, over) ↦ inl (
          rw (events_stop shape_name ev evs c e) (bye_closed (txt "slow_client") c'),
          omega (arith, over, length-append one (messages shape_name evs)),
        )
      ]

  results-Sent :
      {C : Type 0} (s : Session C) (results : List (Text × List Event)) (c : Conn)
      → c.closed ≡ false
      → Sent c (due s results) (send_results marshals s results c)
  unfolding due Sent send_results
  results-Sent s [] c open' = inr (open', sym (append-nil c.send), refl)
  results-Sent s ((shape_name, evs) ∷ results) c open' =
      let c' = if has_shape shape_name s then send_events marshals shape_name evs c else c in
      let ms = if has_shape shape_name s then messages shape_name evs else [] in
      let first : Sent c ms c' = elim (Bool-cases (has_shape shape_name s)) [
        | inl in_shape ↦ rw in_shape (send_events-Sent shape_name evs c open')
        | inr other ↦ rw other (inr (open', sym (append-nil c.send), refl))
      ] in
      Sent-append c c' (send_results marshals s results c') ms (due s results) first
        (closed_results s results c') (results-Sent s results c')

  -- A session whose connection is open gets, for the results of a change, exactly the messages of
  -- the events of the shapes it is subscribed to, those that marshal, behind what already waits for
  -- it and in order; or, only if its buffer has no room for them all, it is disconnected. It is
  -- never left open with some of them missing.
  pub deliver-Sent :
      {C : Type 0} (results : List (Text × List Event)) (s : Session C)
      → s.conn.closed ≡ false
      → Sent s.conn (due s results) (deliver marshals results s).conn
  unfolding deliver
  deliver-Sent results s open' = results-Sent s results s.conn open'
