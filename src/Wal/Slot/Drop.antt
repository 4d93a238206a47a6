-- ===== src/Wal/Slot/Drop.antt =====
-- DropSlot on a slot that somebody may hold.
use tether.Prelude.{
  ℕ, suc, zero, ◌+◌, Bool, true, false, ◌&&◌, Option, none, some, Text, txt, ◌=t◌, lookup, insert,
  erase, index, has_prefix, lookup-erase, lookup-erase_self, lookup-insert, lookup-insert_self, ltb,
  ◌≡◌, ◌≢◌, refl, sym, ap, ◌∙◌, ◌⊎◌, inl, inr, Bool-cases, Option-cases, arith,
}
use tether.Wal.Catalog.{Slot, Catalog, PgError}
use tether.Wal.Slot.{
  Poll, gone, failed, inactive, waited, done, SlotError, is_pg, wait_inactive,
  terminate_slot_backend, drop_from, Waiting, clock_of, poll_of, release, free_slot, drop_slot,
}
use tether.Wal.Slot.Laws.{Honest}
use tether.Wal.Slot.Wait.{Ticks, terminate_slot_backend-ends}

-- Two catalogs that differ in nothing but one slot.
pub record SameBut (name : Text) (cat cat' : Catalog) : Type 0 where
  pub others :
      (other : Text) → (name =t other) ≡ false → lookup other cat'.slots ≡ lookup other cat.slots
  pub publications : cat'.publications ≡ cat.publications
  pub current : cat'.current_lsn ≡ cat.current_lsn

release-SameBut :
    (held : Bool) (name : Text) (cat : Catalog) → SameBut name cat (release held name cat)
unfolding release
release-SameBut held name cat = elim (Option-cases (lookup name cat.slots)) [
  | inl missing ↦
      let eq : release held name cat ≡ cat = ground (arith, missing) in
      rw eq (record { others = λ other h. refl; publications = refl; current = refl })
  | inr (slot, there) ↦
      let eq : release held name cat ≡ record cat {
        slots = insert name (record slot { active = slot.active && held }) cat.slots;
      } =
        ground (arith, there) in
      rw eq (record {
        others = λ other h.
            lookup-insert name other (record slot { active = slot.active && held }) cat.slots
            ∙ rw h;
        publications = refl;
        current = refl;
      })
]

free_slot-SameBut :
    (w : Waiting) (name : Text) (cat : Catalog) → SameBut name cat (free_slot w name cat).0
unfolding free_slot
free_slot-SameBut w name cat = elim (Bool-cases w.terminates) [
  | inl t ↦ rw t (release-SameBut w.held_after name cat)
  | inr f ↦ rw f (record { others = λ other h. refl; publications = refl; current = refl })
]

drop_state :
    (w : Waiting) (fault : Option PgError) (name : Text) (cat : Catalog)
    → Honest (txt "42704") (txt "does not exist") fault
    → (drop_slot w fault name cat).1 ≡ none
    → let freed = (free_slot w name cat).0 in
      ((lookup name freed.slots ≡ none) × ((drop_slot w fault name cat).0 ≡ freed))
      ⊎ ((drop_slot w fault name cat).0 ≡ record freed { slots = erase name freed.slots })
unfolding drop_slot drop_from is_pg ◌=t◌ index has_prefix
drop_state w fault name cat honest e = elim (Option-cases (free_slot w name cat).1) [
  | inr (x, bad) ↦ absurd (ground (arith, bad))
  | inl freed ↦ elim (Option-cases fault) [
    | inr (x, met) ↦ absurd (ground (arith, freed, honest x met))
    | inl fine ↦ elim (Option-cases (lookup name (free_slot w name cat).0.slots)) [
      | inl missing ↦ inl (missing, ground (arith, freed))
      | inr (slot, there) ↦ elim (Bool-cases slot.active) [
        | inr idle ↦ inr (ground (arith, freed))
        | inl held ↦ absurd (ground (arith, freed))
      ]
    ]
  ]
]

-- DropSlot, if it returns no error, leaves no slot of the name, whether there was one or not, and
-- nothing else changes. An error of another cause must not be spelled like "does not exist".
pub drop_slot-ok :
    (w : Waiting) (fault : Option PgError) (name : Text) (cat : Catalog)
    → Honest (txt "42704") (txt "does not exist") fault
    → (drop_slot w fault name cat).1 ≡ none
    → (lookup name (drop_slot w fault name cat).0.slots ≡ none)
      × SameBut name cat (drop_slot w fault name cat).0
drop_slot-ok w fault name cat honest e =
    let same = free_slot-SameBut w name cat in
    let freed = (free_slot w name cat).0 in
    elim (drop_state w fault name cat honest e) [
      | inl (missing, eq) ↦ rw eq (missing, same)
      | inr eq ↦ rw eq (
        lookup-erase_self name freed.slots,
        record {
          others = λ other h. lookup-erase name other freed.slots ∙ rw h (same.others other h);
          publications = same.publications;
          current = same.current;
        },
      )
    ]

clock_of-Ticks : (w : Waiting) → Ticks (clock_of w)
unfolding clock_of
clock_of-Ticks w i = omega arith

-- Polls that do not fail, in a context that lasts, end the wait without an error.
wait_quiet :
    (rounds : ℕ) (clock : ℕ → ℕ) (polls : ℕ → Poll) (deadline i : ℕ) (r : Option SlotError)
    → ((j : ℕ) → (polls j ≢ failed) × (polls j ≢ done))
    → wait_inactive rounds clock polls deadline i ≡ some r
    → r ≡ none
unfolding wait_inactive
wait_quiet zero clock polls deadline i r quiet e = cc
wait_quiet (suc rounds) clock polls deadline i r quiet e =
    let next = wait_quiet rounds clock polls deadline (suc i) r quiet in
    elim (Bool-cases (ltb (clock i) deadline)) [
      | inr late ↦ ground arith
      | inl early ↦ at (polls i) refl early next
    ]
  where
    at :
        (p : Poll)
        → polls i ≡ p
        → ltb (clock i) deadline ≡ true
        → (wait_inactive rounds clock polls deadline (suc i) ≡ some r → r ≡ none)
        → r ≡ none
    at gone ep early next = ground arith
    at failed ep early next = absurd ((quiet i).0 ep)
    at inactive ep early next = ground arith
    at waited ep early next = next (ground arith)
    at done ep early next = absurd ((quiet i).1 ep)

poll_quiet :
    (w : Waiting) (slot : Option Slot) (i : ℕ)
    → w.queries i ≡ true
    → w.cancels i ≡ false
    → (poll_of w slot i ≢ failed) × (poll_of w slot i ≢ done)
unfolding poll_of
poll_quiet w none i q c = (λ e. ground arith, λ e. ground arith)
poll_quiet w (some slot) i q c = (λ e. ground arith, λ e. ground arith)

wait-quiet :
    (w : Waiting) (slot : Option Slot)
    → ((i : ℕ) → (w.queries i ≡ true) × (w.cancels i ≡ false))
    → terminate_slot_backend true w.begins_at (clock_of w) (poll_of w slot) ≡ some none
wait-quiet w slot calm =
    let polls = poll_of w slot in
    let (r, e) =
      terminate_slot_backend-ends true w.begins_at (clock_of w) polls (clock_of-Ticks w)
        (unfold clock_of in omega arith) in
    let e' : wait_inactive 101 (clock_of w) polls (w.begins_at + 2000) 0 ≡ some r =
      unfold terminate_slot_backend in e in
    e
    ∙ ap some (
        wait_quiet 101 (clock_of w) polls (w.begins_at + 2000) 0 r
          (λ j. poll_quiet w slot j (calm j).0 (calm j).1) e')

free_slot-quiet :
    (w : Waiting) (name : Text) (cat : Catalog)
    → w.terminates ≡ true
    → ((i : ℕ) → (w.queries i ≡ true) × (w.cancels i ≡ false))
    → free_slot w name cat ≡ (release w.held_after name cat, none)
unfolding free_slot
free_slot-quiet w name cat t calm =
    let polls = poll_of w (lookup name cat.slots) in
    let ended : terminate_slot_backend w.terminates w.begins_at (clock_of w) polls ≡ some none =
      ap (λ b. terminate_slot_backend b w.begins_at (clock_of w) polls) t
      ∙ wait-quiet w (lookup name cat.slots) calm in
    ground (arith, t, ended)

released :
    (name : Text) (cat : Catalog) (slot : Slot)
    → lookup name (release false name cat).slots ≡ some slot
    → slot.active ≡ false
unfolding release
released name cat slot e = elim (Option-cases (lookup name cat.slots)) [
  | inl missing ↦ absurd (ground arith)
  | inr (s, there) ↦
      let s' : Slot = record s { active = s.active && false } in
      let same : some s' ≡ some slot = sym (lookup-insert_self name s' cat.slots) ∙ ground arith in
      ground arith
]

-- DropSlot drops a slot that a walsender holds, and one that is free or missing: where its statement
-- and its polls succeed, the context lasts, nobody holds the slot behind the wait and the database
-- meets no other error, it returns no error, whatever the polls see and however long they take; and
-- then no slot of the name is left and nothing else of the catalog has changed.
pub drop_slot-drops :
    (w : Waiting) (name : Text) (cat : Catalog)
    → w.terminates ≡ true
    → ((i : ℕ) → (w.queries i ≡ true) × (w.cancels i ≡ false))
    → w.held_after ≡ false
    → ((drop_slot w none name cat).1 ≡ none)
      × (lookup name (drop_slot w none name cat).0.slots ≡ none)
      × SameBut name cat (drop_slot w none name cat).0
unfolding drop_slot drop_from is_pg ◌=t◌ index has_prefix
drop_slot-drops w name cat t calm free =
    let quiet = free_slot-quiet w name cat t calm in
    let freed : (free_slot w name cat).0 ≡ release false name cat = rw (quiet, free) refl in
    let error : (free_slot w name cat).1 ≡ none = rw quiet refl in
    let fine : (drop_slot w none name cat).1 ≡ none =
      elim (Option-cases (lookup name (release false name cat).slots)) [
        | inl missing ↦ ground (arith, freed, error, missing)
        | inr (slot, there) ↦ ground (arith, freed, error, there, released name cat slot there)
      ] in
    let (gone', same) = drop_slot-ok w none name cat (λ e h. cc) fine in (fine, gone', same)
