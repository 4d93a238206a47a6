-- ===== src/Shape/Log.antt =====
-- internal/shape/log.go: the append-only log of one shape. Each method holds the log's mutex from
-- its first line to its last, so a method is one step from a log to a log.
pub mod Offsets
pub mod Resume
mod Tests
use tether.Prelude.{
  ℕ, Bool, true, false, not, ◌&&◌, List, [], ◌∷◌, ◌++◌, Option, none, some, Text, ℤ, pos, ◌<z◌,
  ◌=z◌, inc64, dec64, Result, ok, err, if◌then◌else◌, length, last?,
}
use tether.Shape.Error.{Error}
use tether.Value.{Row, clone_row}

-- EventOp is a string type; these three are its values.
pub data EventOp : Type 0 where
  insert update delete : EventOp

pub record Event : Type 0 where
  pub offset : ℤ
  pub op : EventOp
  pub table : Text
  pub row : Option Row

pub record Log : Type 0 where
  pub next : ℤ
  pub events : List Event
  pub halted : Option Error

-- NewLog
unfoldable pub new_log : Log
new_log = record { next = pos 1; events = []; halted = none }

unfoldable pub halt : Error → Log → Log
halt e l = elim l.halted [ none ↦ record l { halted = some e } | some old ↦ l ]

unfoldable pub append : EventOp → Text → Option Row → Log → Log × Result Error Event
unfolding clone_row
append op table row l =
    let ev : Event = record { offset = l.next; op = op; table = table; row = clone_row row } in
    elim l.halted [
      | some e ↦ (l, err e)
      | none ↦ (record l { next = inc64 l.next; events = l.events ++ ev ∷ [] }, ok ev)
    ]

-- The loop of After.
unfoldable pub after_loop : ℤ → List Event → List Event
after_loop offset [] = []
after_loop offset (ev ∷ evs) =
    let rest = after_loop offset evs in if offset <z ev.offset then ev ∷ rest else rest

after_events : ℤ → List Event → List Event × Bool
unfolding after_loop
after_events offset [] = if offset =z pos 0 then ([], true) else ([], false)
after_events offset (ev ∷ evs) =
    if pos 0 <z offset && offset <z dec64 ev.offset
    then ([], false)
    else (after_loop offset (ev ∷ evs), true)

-- After: the events above an offset, and whether the log could answer.
unfoldable pub after : ℤ → Log → List Event × Bool
unfolding after_events
after offset l = after_events offset l.events

-- Len
unfoldable pub len : Log → ℕ
len l = length l.events

last_of : Option Event → ℤ
last_of none = pos 0
last_of (some ev) = ev.offset

-- LastOffset
unfoldable pub last_offset : Log → ℤ
unfolding last_of
last_offset l = last_of (last? l.events)
