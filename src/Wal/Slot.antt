-- ===== src/Wal/Slot.antt =====
-- EnsureSlot and DropSlot of internal/wal/publication.go, and TerminateSlotBackend, SlotExists and
-- SlotLagBytes of internal/wal/lag.go.
pub mod Wait
pub mod Laws
pub mod Drop
mod Tests
use tether.Prelude.{
  ℕ, suc, zero, ◌+◌, ◌-◌, Bool, true, false, not, ◌&&◌, ◌||◌, List, [], ◌∷◌, ◌++◌, Option, none,
  some, Text, txt, ◌=t◌, ℤ, pos, negsuc, ◌<z◌, ltb, Result, ok, err, ◌>>=◌, if◌then◌else◌, Dict,
  lookup, insert, erase, is_some, index,
}
use tether.Wal.Catalog.{Slot, Catalog, PgError}
use tether.Wal.Change.{Lsn}

pub data SlotError : Type 0 where
  nil_conn empty_name nil_pool : SlotError
  create_failed drop_failed terminate_failed wait_failed lag_failed cancelled : SlotError

-- errors.As to a PgError with this code, or strings.Contains of the error's text
unfoldable pub is_pg : Text → Text → PgError → Bool
is_pg code part e =
    elim e.code [ none ↦ false | some c ↦ c =t code ] || is_some (index part e.message)

-- CREATE_REPLICATION_SLOT: a new slot holds the WAL from now on.
unfoldable pub create_slot : Option PgError → Text → Catalog → Catalog × Option PgError
create_slot (some e) name cat = (cat, some e)
create_slot none name cat =
    if is_some (lookup name cat.slots)
    then (
      cat,
      some (record { code = some (txt "42710"); message = txt "replication slot already exists" }),
    )
    else (
      record cat {
        slots =
            insert name (record { active = false; restart_lsn = some cat.current_lsn }) cat.slots;
      },
      none,
    )

-- EnsureSlot; `fault` is an error that the call meets before it reaches the catalog.
unfoldable pub ensure_slot : Bool → Option PgError → Text → Catalog → Catalog × Option SlotError
unfolding create_slot is_pg
ensure_slot has_conn fault name cat =
    if not has_conn
    then (cat, some nil_conn)
    else if name =t []
    then (cat, some empty_name)
    else (let (cat', r) = create_slot fault name cat in
        elim r [
          | none ↦ (cat', none)
          | some e ↦ (
            cat',
            if is_pg (txt "42710") (txt "already exists") e then none else some create_failed,
          )
        ])

-- One poll of TerminateSlotBackend: there is no such slot, the query fails, nobody holds the slot,
-- or somebody does, and then the wait is over or the context is done.
pub data Poll : Type 0 where
  gone failed inactive waited done : Poll

-- The loop of TerminateSlotBackend from its round `i` on, where the clock reads `clock i` and the
-- poll answers `polls i`; `none` means that the rounds do not suffice.
unfoldable pub wait_inactive : ℕ → (ℕ → ℕ) → (ℕ → Poll) → ℕ → ℕ → Option (Option SlotError)
wait_inactive zero clock polls deadline i = none
wait_inactive (suc rounds) clock polls deadline i = elim (ltb (clock i) deadline) [
  | false ↦ some none
  | true ↦ elim (polls i) [
    | gone ↦ some none
    | failed ↦ some (some wait_failed)
    | inactive ↦ some none
    | waited ↦ wait_inactive rounds clock polls deadline (suc i)
    | done ↦ some (some cancelled)
  ]
]

-- TerminateSlotBackend, in milliseconds: two seconds, in rounds of 20 and more.
unfoldable pub terminate_slot_backend : Bool → ℕ → (ℕ → ℕ) → (ℕ → Poll) → Option (Option SlotError)
terminate_slot_backend terminates now clock polls =
    if terminates
    then wait_inactive 101 clock polls (now + 2000) 0
    else some (some terminate_failed)

-- What a call of TerminateSlotBackend meets: whether its first statement succeeds, the time when the
-- wait begins, and by the round how many milliseconds it takes beyond its 20, whether its query
-- succeeds, whether the slot's holder is still there, and whether the context ends. The last answer
-- says whether somebody holds the slot behind the wait.
pub record Waiting : Type 0 where
  pub terminates : Bool
  pub begins_at : ℕ
  pub delay : ℕ → ℕ
  pub queries : ℕ → Bool
  pub holds : ℕ → Bool
  pub cancels : ℕ → Bool
  pub held_after : Bool

-- The time at the head of a round.
unfoldable pub clock_of : Waiting → ℕ → ℕ
clock_of w zero = w.begins_at + w.delay zero
clock_of w (suc i) = clock_of w i + 20 + w.delay (suc i)

-- The query of a round, on the row of pg_replication_slots, and the select behind it.
unfoldable pub poll_of : Waiting → Option Slot → ℕ → Poll
poll_of w none i = if w.queries i then gone else failed
poll_of w (some slot) i =
    if not (w.queries i)
    then failed
    else if not (slot.active && w.holds i)
    then inactive
    else if w.cancels i
    then done
    else waited

-- The holder of a slot goes, or `held` says that the slot is still, or again, in use.
unfoldable pub release : Bool → Text → Catalog → Catalog
release held name cat = elim (lookup name cat.slots) [
  | none ↦ cat
  | some slot ↦ record cat {
    slots = insert name (record slot { active = slot.active && held }) cat.slots;
  }
]

-- An answer within the rounds; `none`, that they do not suffice, does not occur.
within : Option (Option SlotError) → Option SlotError
within none = none
within (some r) = r

-- TerminateSlotBackend on the catalog: the statement ends the slot's holder, and the polls watch it
-- go. Where the statement fails, nothing has changed.
unfoldable pub free_slot : Waiting → Text → Catalog → Catalog × Option SlotError
unfolding within
free_slot w name cat =
    let r = within (
      terminate_slot_backend w.terminates w.begins_at (clock_of w)
        (poll_of w (lookup name cat.slots))) in
    if w.terminates then (release w.held_after name cat, r) else (cat, r)

-- pg_drop_replication_slot refuses a slot that is in use.
unfoldable pub drop_from : Option PgError → Text → Catalog → Catalog × Option PgError
drop_from (some e) name cat = (cat, some e)
drop_from none name cat = elim (lookup name cat.slots) [
  | none ↦ (
    cat,
    some (record { code = some (txt "42704"); message = txt "replication slot does not exist" }),
  )
  | some slot ↦
      if slot.active
      then (
        cat,
        some (record { code = some (txt "55006"); message = txt "replication slot is active" }),
      )
      else (record cat { slots = erase name cat.slots }, none)
]

-- DropSlot
unfoldable pub drop_slot : Waiting → Option PgError → Text → Catalog → Catalog × Option SlotError
unfolding is_pg
drop_slot w fault name cat =
    let (freed, waits) = free_slot w name cat in
    let (cat', r) = drop_from fault name freed in
    elim waits [
      | some e ↦ (freed, some e)
      | none ↦ elim r [
        | none ↦ (cat', none)
        | some e ↦
            (cat', if is_pg (txt "42704") (txt "does not exist") e then none else some drop_failed)
      ]
    ]

-- pg_wal_lsn_diff
unfoldable pub lsn_diff : Lsn → Lsn → ℤ
lsn_diff a b = if ltb a b then negsuc (b - a - 1) else pos (a - b)

-- SlotLagBytes on a slot's restart_lsn: no row, a row with NULL, or a difference.
unfoldable pub lag_of : Option Slot → Lsn → ℤ
unfolding lsn_diff
lag_of none now = pos 0
lag_of (some slot) now = elim slot.restart_lsn [
  | none ↦ pos 0
  | some lsn ↦ let lag = lsn_diff now lsn in if lag <z pos 0 then pos 0 else lag
]

unfoldable pub slot_lag_bytes : Bool → Bool → Text → Catalog → Result SlotError ℤ
unfolding lag_of
slot_lag_bytes has_pool queries name cat =
    if not has_pool
    then err nil_pool
    else if name =t []
    then err empty_name
    else if queries
    then ok (lag_of (lookup name cat.slots) cat.current_lsn)
    else err lag_failed

-- SlotExists
unfoldable pub slot_exists : Bool → Text → Catalog → Result SlotError Bool
slot_exists queries name cat =
    if queries then ok (is_some (lookup name cat.slots)) else err lag_failed
