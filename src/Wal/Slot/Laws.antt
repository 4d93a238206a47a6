-- ===== src/Wal/Slot/Laws.antt =====
-- What the calls on a slot leave behind.
use tether.Prelude.{
  ℕ, ◌+◌, ◌-◌, ◌<◌, Bool, false, Option, none, some, Text, txt, ℤ, pos, ltb, ok, lookup, insert,
  ◌≡◌, refl, ◌⊎◌, inl, inr, Bool-cases, Option-cases, arith,
}
use tether.Wal.Catalog.{Slot, Catalog, PgError}
use tether.Wal.Change.{Lsn}
use tether.Wal.Slot.{is_pg, create_slot, ensure_slot, lsn_diff, lag_of, slot_lag_bytes}

-- The lag that SlotLagBytes returns is never negative: it is 0 if the slot is missing or holds no
-- WAL; else it is the distance from the slot's restart_lsn up to the current position, and 0 if the
-- slot stands ahead of it.
pub slot_lag_bytes-bound :
    (name : Text) (cat : Catalog) (lag : ℤ) (has_pool queries : Bool)
    → slot_lag_bytes has_pool queries name cat ≡ ok lag
    → (n : ℕ) × (lag ≡ pos n)
      × ((lookup name cat.slots ≡ none) × (n ≡ 0)
          ⊎ ((slot : Slot) × (lookup name cat.slots ≡ some slot)
              × ((slot.restart_lsn ≡ none) × (n ≡ 0)
                  ⊎ ((lsn : Lsn) × (slot.restart_lsn ≡ some lsn)
                      × ((lsn + n ≡ cat.current_lsn) ⊎ (cat.current_lsn < lsn) × (n ≡ 0))))))
unfolding slot_lag_bytes lag_of lsn_diff
slot_lag_bytes-bound name cat lag has_pool queries e =
    let same : lag_of (lookup name cat.slots) cat.current_lsn ≡ lag = ground arith in
    elim (Option-cases (lookup name cat.slots)) [
      | inl missing ↦ (0, ground arith, inl (missing, refl))
      | inr (slot, there) ↦ elim (Option-cases slot.restart_lsn) [
        | inl null ↦ (0, ground arith, inr (slot, there, inl (null, refl)))
        | inr (lsn, at) ↦ elim (Bool-cases (ltb cat.current_lsn lsn)) [
          | inl ahead ↦
              (0, ground arith, inr (slot, there, inr (lsn, at, inr (ground arith, refl))))
          | inr behind ↦ (
            cat.current_lsn - lsn,
            ground arith,
            inr (slot, there, inr (lsn, at, inl (ground arith))),
          )
        ]
      ]
    ]

-- A fault whose text or code says that the slot exists, or that it does not.
abbrev pub Honest : Text → Text → Option PgError → Type 0
Honest code part fault = (e : PgError) → fault ≡ some e → is_pg code part e ≡ false

-- EnsureSlot, if it returns no error, leaves a slot of the name; a slot that was there stays as it
-- is, a new one begins at the current position, and other slots and the rest of the catalog do not
-- change. An error of another cause must not be spelled like "already exists".
pub ensure_slot-ok :
    (has_conn : Bool) (fault : Option PgError) (name : Text) (cat : Catalog)
    → Honest (txt "42710") (txt "already exists") fault
    → (ensure_slot has_conn fault name cat).1 ≡ none
    → ((slot : Slot) × (lookup name cat.slots ≡ some slot)
        × ((ensure_slot has_conn fault name cat).0 ≡ cat))
      ⊎ ((lookup name cat.slots ≡ none)
          × ((ensure_slot has_conn fault name cat).0 ≡ record cat {
            slots =
                insert name
                  (record { active = false; restart_lsn = some cat.current_lsn })
                  cat.slots;
          }))
unfolding ensure_slot create_slot
ensure_slot-ok has_conn fault name cat honest e = elim (Option-cases fault) [
  | inr (x, met) ↦ absurd (ground (arith, honest x met))
  | inl fine ↦ elim (Option-cases (lookup name cat.slots)) [
    | inl missing ↦ inr (missing, ground arith)
    | inr (slot, there) ↦ inl (slot, there, ground arith)
  ]
]
