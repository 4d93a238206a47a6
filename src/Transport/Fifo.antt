-- ===== src/Transport/Fifo.antt =====
-- The outbound buffer is a bounded queue: what is accepted reaches the socket in order.
use tether.Prelude.{
  ◌≤◌, true, false, List, [], ◌∷◌, ◌++◌, ◌≡◌, refl, if◌then◌else◌, length, length-append, ltb,
  arith, Bool-cases, inl, inr, sym, ◌∙◌, ap,
}
use tether.Transport.{
  Message, Conn, Write, ended, written, refused, enqueue, pump, pump_next, pump_write,
}
use mathlib.Core.List.{append_assoc, append-nil}

-- What may happen to an open connection.
pub data Action : Type 0 where
  offer : Message → Action
  drain : Write → Action

unfoldable pub act : Action → Conn → Conn
act (offer m) c = (enqueue m c).0
act (drain w) c = pump w c

unfoldable pub acts : List Action → Conn → Conn
acts [] c = c
acts (a ∷ as') c = acts as' (act a c)

-- The messages that Enqueue accepted, in order.
unfoldable pub accepted : List Action → Conn → List Message
accepted [] c = []
accepted (offer m ∷ as') c =
    (if (enqueue m c).1 then m ∷ [] else []) ++ accepted as' (enqueue m c).0
accepted (drain w ∷ as') c = accepted as' (pump w c)

abbrev IsBounded : Conn → Type 0
IsBounded c = length c.send ≤ c.capacity

-- What the socket has been given, what the pump lost when it stopped, and what still waits are
-- together the messages `all`; a pump that runs has lost nothing.
abbrev Tracks : List Message → List Message → Conn → Type 0
Tracks all lost c = (c.socket ++ (lost ++ c.send) ≡ all) × (c.pumping ≡ true → lost ≡ [])

enqueue_open :
    (m : Message) (c : Conn)
    → c.closed ≡ false
    → ((enqueue m c).0.closed ≡ false) × (IsBounded c → IsBounded (enqueue m c).0)
unfolding enqueue
enqueue_open m c open' = elim (Bool-cases (ltb (length c.send) c.capacity)) [
  | inl fits ↦ (ground arith, λ b. rw (open', fits) (grind (arith, length-append c.send (m ∷ []))))
  | inr full ↦ (ground arith, λ b. rw (open', full) b)
]

join_end :
    (a lost b : List Message) (m : Message)
    → a ++ (lost ++ (b ++ m ∷ [])) ≡ (a ++ (lost ++ b)) ++ m ∷ []
join_end a lost b m =
    ap (λ x. a ++ x) (sym (append_assoc lost b (m ∷ [])))
    ∙ sym (append_assoc a (lost ++ b) (m ∷ []))

enqueue_order :
    (m : Message) (c : Conn) (all lost : List Message)
    → c.closed ≡ false
    → Tracks all lost c
    → Tracks (all ++ (if (enqueue m c).1 then m ∷ [] else [])) lost (enqueue m c).0
unfolding enqueue
enqueue_order m c all lost open' (t, p) = elim (Bool-cases (ltb (length c.send) c.capacity)) [
  | inl fits ↦ rw (open', fits) (join_end c.socket lost c.send m ∙ ap (λ x. x ++ m ∷ []) t, p)
  | inr full ↦ rw (open', full) (t ∙ sym (append-nil all), p)
]

pump_open :
    (w : Write) (c : Conn)
    → c.closed ≡ false
    → ((pump w c).closed ≡ false) × (IsBounded c → IsBounded (pump w c))
unfolding pump
pump_open ended c open' = ground arith
pump_open written c open' = ground arith
pump_open refused c open' = ground arith

-- A round of a pump that runs, on a channel that holds q.
pump_running :
    (w : Write) (c : Conn) (all q : List Message)
    → c.pumping ≡ true
    → c.socket ++ q ≡ all
    → (lost : List Message) × Tracks all lost (pump w (record c { send = q }))
unfolding pump pump_next pump_write
pump_running ended c all q on t = ([], rw on (t, λ e. refl))
pump_running written c all [] on t = (
  [],
  elim (Bool-cases c.closed) [
    | inl shut ↦ rw (on, shut) (t, λ e. refl)
    | inr open' ↦ rw (on, open') (t, λ e. refl)
  ],
)
pump_running refused c all [] on t = (
  [],
  elim (Bool-cases c.closed) [
    | inl shut ↦ rw (on, shut) (t, λ e. refl)
    | inr open' ↦ rw (on, open') (t, λ e. refl)
  ],
)
pump_running written c all (m ∷ q) on t =
    ([], rw on (append_assoc c.socket (m ∷ []) q ∙ t, λ e. refl))
pump_running refused c all (m ∷ q) on t = (m ∷ [], rw on (t, λ e. cc))

pump_order :
    (w : Write) (c : Conn) (all lost : List Message)
    → Tracks all lost c
    → (lost' : List Message) × Tracks all lost' (pump w c)
unfolding pump
pump_order w c all lost (t, p) = elim (Bool-cases c.pumping) [
  | inr off ↦ (lost, rw off (t, λ e. cc))
  | inl on ↦ let t' : c.socket ++ c.send ≡ all = rw (p on) at t in pump_running w c all c.send on t'
]

acts-Tracks :
    (as' : List Action) (c : Conn) (all lost : List Message)
    → c.closed ≡ false
    → IsBounded c
    → Tracks all lost c
    → ((acts as' c).closed ≡ false)
      × IsBounded (acts as' c)
      × ((lost : List Message) × Tracks (all ++ accepted as' c) lost (acts as' c))
unfolding acts accepted act
acts-Tracks [] c all lost o b (t, p) = (o, b, (lost, (t ∙ sym (append-nil all), p)))
acts-Tracks (drain w ∷ as') c all lost o b t =
    let (o', b') = pump_open w c o in
    let (lost', t') = pump_order w c all lost t in acts-Tracks as' (pump w c) all lost' o' (b' b) t'
acts-Tracks (offer m ∷ as') c all lost o b t =
    let (o', b') = enqueue_open m c o in
    let one = if (enqueue m c).1 then m ∷ [] else [] in
    let (ro, rb, (l, (e, q))) =
      acts-Tracks as' (enqueue m c).0 (all ++ one) lost o' (b' b)
        (enqueue_order m c all lost o t) in
    (ro, rb, (l, (e ∙ append_assoc all one (accepted as' (enqueue m c).0), q)))

-- Whatever is offered to an open connection whose buffer is within its capacity, however fast its pump drains it and wherever the pump
-- stops, the connection stays open and its buffer never exceeds its capacity. What the socket has
-- been given, what the pump lost when it stopped (nothing while it runs), and what waits are
-- together what was there before and the messages that Enqueue accepted, in the order of the calls.
pub acts_order :
    (as' : List Action) (c : Conn)
    → c.closed ≡ false
    → length c.send ≤ c.capacity
    → ((acts as' c).closed ≡ false)
      × (length (acts as' c).send ≤ (acts as' c).capacity)
      × ((lost : List Message) × (((acts as' c).socket ++ (lost ++ (acts as' c).send)
              ≡ (c.socket ++ c.send) ++ accepted as' c)
            × ((acts as' c).pumping ≡ true → lost ≡ [])))
acts_order as' c o b = acts-Tracks as' c (c.socket ++ c.send) [] o b (refl, λ e. refl)
