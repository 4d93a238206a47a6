-- ===== src/Engine/Subscribe/Queue.antt =====
-- What the calls on a connection queue for its client.
use tether.Prelude.{
  false, List, [], ◌∷◌, ◌++◌, none, Text, txt, ◌≡◌, refl, sym, ap, ◌∙◌, ◌⊎◌, inl, inr, Bool-cases,
  length, ltb, arith,
}
use mathlib.Core.List.{append-nil}
use tether.Engine.Dispatch.{enqueue_change, send_events, send_err}
use tether.Engine.Dispatch.FanOut.{Sent, messages, one_event, send_events-Sent}
use tether.Engine.Subscribe.{Services, resume_events, send_snapshot}
use tether.Shape.Log.{Event}
use tether.Transport
use tether.Transport.{Message, Conn, enqueue, send_bye, shutdown}

-- A notice that the client must drop what it has, or nothing.
abbrev pub Notice : List Message → Type 0
Notice pre =
    (pre ≡ [])
    ⊎ ((shape_name : Text) × (pre ≡ Transport.error (txt "must_resnapshot") shape_name ∷ []))

-- From a connection: open still, and the messages behind what waited.
abbrev pub Queued : Conn → List Message → Conn → Type 0
Queued c ms c' = (c'.closed ≡ false) × (c'.send ≡ c.send ++ ms)

module _ {C : Type 0} (sv : Services C) where
  pub resume_events-send_events :
      (name : Text) (evs : List Event) (c : Conn)
      → (resume_events sv name evs c).0 ≡ send_events sv.marshals name evs c
  unfolding resume_events send_events
  resume_events-send_events name [] c = refl
  resume_events-send_events name (ev ∷ evs) c =
      ground (arith, resume_events-send_events name evs (enqueue_change sv.marshals name ev c).0)

  resume_open :
      (name : Text) (evs : List Event) (c : Conn)
      → c.closed ≡ false
      → (resume_events sv name evs c).1 ≡ none
      → (resume_events sv name evs c).0.closed ≡ false
  unfolding resume_events
  resume_open name [] c open' e = open'
  resume_open name (ev ∷ evs) c open' e = elim (one_event sv.marshals name ev c open') [
    | inl (sent, o, _, _) ↦
        ground (arith, resume_open name evs (enqueue_change sv.marshals name ev c).0 o)
    | inr (full, _, _) ↦ ground arith
  ]

  pub resume_Queued :
      (name : Text) (evs : List Event) (c : Conn)
      → c.closed ≡ false
      → (resume_events sv name evs c).1 ≡ none
      → Queued c (messages sv.marshals name evs) (resume_events sv name evs c).0
  unfolding Sent
  resume_Queued name evs c open' e =
      let o = resume_open name evs c open' e in
      elim (send_events-Sent sv.marshals name evs c open') [
        | inl (shut, _) ↦ ground (arith, resume_events-send_events name evs c)
        | inr (_, queued, _) ↦ (o, ap (λ x. x.send) (resume_events-send_events name evs c) ∙ queued)
      ]

  pub snapshot_Queued :
      (m : Message) (c : Conn)
      → c.closed ≡ false
      → (send_snapshot sv m c).1 ≡ none
      → Queued c (m ∷ []) (send_snapshot sv m c).0
  unfolding send_snapshot enqueue
  snapshot_Queued m c open' e = elim (Bool-cases (sv.marshals m)) [
    | inr lost ↦ ground arith
    | inl good ↦ elim (Bool-cases (ltb (length c.send) c.capacity)) [
      | inl fits ↦ rw (good, open', fits) (refl, refl)
      | inr full ↦ ground arith
    ]
  ]

  -- sendErr leaves the connection open, with the message behind what waited or, if it had no room or
  -- did not marshal, without.
  pub err_Queued :
      (name : Text) (c : Conn)
      → c.closed ≡ false
      → (pre : List Message) × Notice pre
        × Queued c pre (send_err sv.marshals (txt "must_resnapshot") name c)
  unfolding send_err enqueue
  err_Queued name c open' =
      elim (Bool-cases (sv.marshals (Transport.error (txt "must_resnapshot") name))) [
        | inr lost ↦ ([], inl refl, rw lost (open', sym (append-nil c.send)))
        | inl good ↦ elim (Bool-cases (ltb (length c.send) c.capacity)) [
          | inl fits ↦ (
            Transport.error (txt "must_resnapshot") name ∷ [],
            inr (name, refl),
            rw (good, open', fits) (refl, refl),
          )
          | inr full ↦ ([], inl refl, rw (good, open', full) (refl, sym (append-nil c.send)))
        ]
      ]
