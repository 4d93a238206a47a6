-- ===== src/Wal/Slot/Wait.antt =====
-- The wait of TerminateSlotBackend ends.
use tether.Prelude.{
  ℕ, suc, zero, ◌+◌, ◌*◌, ◌≤◌, ltb, Bool, true, false, Option, none, some, ◌≡◌, refl, inl, inr,
  Bool-cases, arith,
}
use tether.Wal.Slot.{
  Poll, gone, failed, inactive, waited, done, SlotError, wait_failed, cancelled, terminate_failed,
  wait_inactive, terminate_slot_backend,
}

-- Each round but the last takes 20 milliseconds or more.
abbrev pub Ticks : (ℕ → ℕ) → Type 0
Ticks clock = (i : ℕ) → clock i + 20 ≤ clock (suc i)

-- A round that polls in time: it ends the wait, or the wait goes on with the next round.
round_ends :
    (rounds : ℕ) (clock : ℕ → ℕ) (polls : ℕ → Poll) (deadline i : ℕ) (p : Poll)
    → polls i ≡ p
    → ((r : Option SlotError) × (wait_inactive rounds clock polls deadline (suc i) ≡ some r))
    → (r : Option SlotError) × (wait_inactive (suc rounds) clock polls deadline i ≡ some r)
unfolding wait_inactive
round_ends rounds clock polls deadline i p e (r, next) =
    elim (Bool-cases (ltb (clock i) deadline)) [
      | inr late ↦ (none, ground arith)
      | inl early ↦ polled p e early
    ]
  where
    polled :
        (p : Poll)
        → polls i ≡ p
        → ltb (clock i) deadline ≡ true
        → (r : Option SlotError) × (wait_inactive (suc rounds) clock polls deadline i ≡ some r)
    polled gone e early = (none, ground arith)
    polled failed e early = (some wait_failed, ground arith)
    polled inactive e early = (none, ground arith)
    polled waited e early = (r, ground arith)
    polled done e early = (some cancelled, ground arith)

wait_ends :
    (rounds : ℕ) (clock : ℕ → ℕ) (polls : ℕ → Poll) (deadline i : ℕ)
    → Ticks clock
    → deadline ≤ clock i + 20 * rounds
    → (r : Option SlotError) × (wait_inactive (suc rounds) clock polls deadline i ≡ some r)
unfolding wait_inactive
wait_ends zero clock polls deadline i ticks h = (none, ground arith)
wait_ends (suc rounds) clock polls deadline i ticks h =
    round_ends (suc rounds) clock polls deadline i (polls i) refl
      (wait_ends rounds clock polls deadline (suc i) ticks (omega (arith, ticks i, h)))

-- The wait for a slot's holder ends, whatever the polls answer: with a clock that moves on by 20
-- milliseconds or more in each round, the rounds of the model suffice for the two seconds.
pub terminate_slot_backend-ends :
    (terminates : Bool) (now : ℕ) (clock : ℕ → ℕ) (polls : ℕ → Poll)
    → Ticks clock
    → now ≤ clock 0
    → (r : Option SlotError) × (terminate_slot_backend terminates now clock polls ≡ some r)
unfolding terminate_slot_backend
terminate_slot_backend-ends true now clock polls ticks h =
    wait_ends 100 clock polls (now + 2000) 0 ticks (omega (arith, h))
terminate_slot_backend-ends false now clock polls ticks h = (some terminate_failed, refl)
