-- ===== src/Shape/Instance/Laws.antt =====
-- The cache of an instance as a function of the key.
use tether.Prelude.{
  [], ◌∷◌, Option, none, Text, ok, ◌≡◌, refl, ◌++◌, lookup, insert, erase, lookup-insert,
  lookup-erase, arith, if◌then◌else◌, ◌=t◌, inc64, ap, inl, inr, ◌⊎◌, Option-cases,
}
use tether.Shape.Instance.{Instance, Cache, cached, emit}
use tether.Shape.Log.{Event, EventOp}
use tether.Shape.Log.Offsets.{append_running, append_halted}
use tether.Value.{Row, clone_row_lem}

pub cached-nil : (j : Text) → cached j [] ≡ none
unfolding cached lookup
cached-nil j = refl

pub cached-insert :
    (k j : Text) (row : Option Row) (c : Cache)
    → cached j (insert k row c) ≡ (if k =t j then row else cached j c)
unfolding cached
cached-insert k j row c = ground (arith, lookup-insert k j row c, clone_row_lem row)

pub cached-erase :
    (k j : Text) (c : Cache) → cached j (erase k c) ≡ (if k =t j then none else cached j c)
unfolding cached
cached-erase k j c = ground (arith, lookup-erase k j c)

-- What emit returns on a log that runs.
pub emit_running :
    {C : Type 0} (op : EventOp) (row : Option Row) (inst : Instance C)
    → inst.log.halted ≡ none
    → let ev : Event = record {
      offset = inst.log.next;
      op = op;
      table = inst.def.table;
      row = row;
    } in
      emit op row inst ≡ (
        record inst {
          log = record inst.log { next = inc64 inst.log.next; events = inst.log.events ++ ev ∷ [] };
        },
        ok (ev ∷ []),
      )
unfolding emit
emit_running op row inst h = ground (arith, append_running op inst.def.table row inst.log h)

-- An instance whose log has one more event at its end.
abbrev pub logged : {C : Type 0} → EventOp → Option Row → Instance C → Instance C
logged op row inst = record inst {
  log = record inst.log {
    next = inc64 inst.log.next;
    events =
        inst.log.events
        ++ record { offset = inst.log.next; op = op; table = inst.def.table; row = row } ∷ [];
  };
}

-- emit leaves the instance as it was, if its log has halted, or with one more event.
pub emit_state :
    {C : Type 0} (op : EventOp) (row : Option Row) (inst : Instance C)
    → ((emit op row inst).0 ≡ inst) ⊎ ((emit op row inst).0 ≡ logged op row inst)
emit_state op row inst = elim (Option-cases inst.log.halted) [
  | inl runs ↦ inr (ap (λ o. o.0) (emit_running op row inst runs))
  | inr (e, stopped) ↦
      inl (unfold emit in ground (arith, append_halted op inst.def.table row inst.log e stopped))
]
