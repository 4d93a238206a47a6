-- ===== src/Wal/Slot/Tests.antt =====
-- A slot that lags, and a holder that does not go.
use tether.Prelude.{
  ◌⊎◌, ℕ, ◌+◌, ◌*◌, ◌<◌, Bool, true, false, ltb, insert, [], ◌∷◌, Option, none, some, txt, ◌=t◌,
  pos, lookup, ◌≡◌, refl, arith,
}
use tether.Wal.Catalog.{Slot, Catalog}
use tether.Wal.Change.{Lsn}
use tether.Wal.Slot.{
  SlotError, waited, terminate_slot_backend, slot_lag_bytes, lag_of, lsn_diff, drop_slot, drop_from,
  Waiting, clock_of, poll_of, wait_inactive, release, free_slot,
}
use tether.Wal.Slot.Drop.{SameBut, drop_slot-drops}
use tether.Wal.Slot.Laws.{slot_lag_bytes-bound}
use tether.Wal.Slot.Wait.{terminate_slot_backend-ends}

terminate_slot_backend-ends_example :
    (r : Option SlotError) × (terminate_slot_backend true 5 (λ i. 5 + 20 * i) (λ i. waited)
      ≡ some r)
terminate_slot_backend-ends_example =
    terminate_slot_backend-ends true 5 (λ i. 5 + 20 * i) (λ i. waited) (λ i. omega arith)
      (omega arith)

abbrev catalog : Catalog
catalog = record {
  slots = (txt "tether_slot", record { active = true; restart_lsn = some 100 }) ∷ [];
  publications = [];
  current_lsn = 164;
}

slot_lag_bytes-bound_example :
    (n : ℕ) × (pos 64 ≡ pos n)
    × ((lookup (txt "tether_slot") catalog.slots ≡ none) × (n ≡ 0)
        ⊎ ((slot : Slot) × (lookup (txt "tether_slot") catalog.slots ≡ some slot)
            × ((slot.restart_lsn ≡ none) × (n ≡ 0)
                ⊎ ((lsn : Lsn) × (slot.restart_lsn ≡ some lsn)
                    × ((lsn + n ≡ 164) ⊎ (164 < lsn) × (n ≡ 0))))))
slot_lag_bytes-bound_example =
    slot_lag_bytes-bound (txt "tether_slot") catalog (pos 64) true true
      (unfold slot_lag_bytes lag_of lsn_diff lookup ◌=t◌ in refl)

-- A walsender that goes in the second round; the slot is free behind the wait, or taken again.
abbrev waiting : Bool → Waiting
waiting held = record {
  terminates = true;
  begins_at = 5;
  delay = λ i. i;
  queries = λ i. true;
  holds = λ i. ltb i 1;
  cancels = λ i. false;
  held_after = held;
}

drop_slot-drops_example :
    let (cat, e) = drop_slot (waiting false) none (txt "tether_slot") catalog in
    (e ≡ none)
    × (lookup (txt "tether_slot") cat.slots ≡ none)
    × SameBut (txt "tether_slot") catalog cat
drop_slot-drops_example =
    drop_slot-drops (waiting false) (txt "tether_slot") catalog refl (λ i. (refl, refl)) refl

-- A slot in use is not dropped.
in_use : (drop_slot (waiting true) none (txt "tether_slot") catalog).0 ≡ catalog
unfolding drop_slot drop_from free_slot release terminate_slot_backend wait_inactive poll_of
    clock_of lookup insert ◌=t◌
in_use = refl
