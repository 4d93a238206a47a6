-- ===== src/Shape/Log/Offsets.antt =====
-- The offsets of a shape log are 1, 2, 3, ... without a gap.
use tether.Prelude.{
  ℕ, suc, ◌+◌, ◌<◌, ◌≡◌, refl, List, [], ◌∷◌, ◌++◌, Option, none, some, Text, pos, inc64, ok, err,
  length, length-append, last?, max_int64, arith,
}
use tether.Shape.Error.{Error}
use tether.Shape.Log.{Event, EventOp, Log, new_log, append, halt, last_offset, len}
use tether.Value.{Row, clone_row, clone_row_lem}

-- The offsets are n, n + 1, ... in order.
abbrev pub Numbered : ℕ → List Event → Type 0
Numbered n [] = Unit
Numbered n (ev ∷ evs) = (ev.offset ≡ pos n) × Numbered (suc n) evs

-- The well-formed logs: numbered from 1, with the next offset behind the last event, and room in
-- an int64.
pub record IsWellFormed (l : Log) : Type 0 where
  pub numbered : Numbered 1 l.events
  pub next : l.next ≡ pos (suc (length l.events))
  pub room : length l.events < max_int64

Numbered-append :
    (n : ℕ) (evs : List Event) (ev : Event)
    → Numbered n evs
    → ev.offset ≡ pos (n + length evs)
    → Numbered n (evs ++ ev ∷ [])
Numbered-append n [] ev h e = (ground arith, tt)
Numbered-append n (x ∷ evs) ev h e = (h.0, Numbered-append (suc n) evs ev h.1 (ground arith))

pub new_log-IsWellFormed : IsWellFormed new_log
unfolding new_log
new_log-IsWellFormed = record { numbered = tt; next = refl; room = omega arith }

-- Append keeps a log well-formed while an int64 has room for one more offset.
pub append-IsWellFormed :
    (op : EventOp) (table : Text) (row : Option Row) (l : Log)
    → IsWellFormed l
    → suc (length l.events) < max_int64
    → IsWellFormed (append op table row l).0
unfolding append clone_row
append-IsWellFormed op table row l w room =
    let ev : Event = record { offset = l.next; op = op; table = table; row = clone_row row } in
    ground (
      arith,
      Numbered-append 1 l.events ev w.numbered (ground arith),
      length-append l.events (ev ∷ []),
    )

-- Append to a log that runs: the event has the next offset, and stands at the end.
pub append_running :
    (op : EventOp) (table : Text) (row : Option Row) (l : Log)
    → l.halted ≡ none
    → let ev : Event = record { offset = l.next; op = op; table = table; row = row } in
      append op table row l
      ≡ (record l { next = inc64 l.next; events = l.events ++ ev ∷ [] }, ok ev)
unfolding append
append_running op table row l h = ground (arith, clone_row_lem row)

-- Append to a log that has halted returns the error that halted it, and changes nothing.
pub append_halted :
    (op : EventOp) (table : Text) (row : Option Row) (l : Log) (e : Error)
    → l.halted ≡ some e
    → append op table row l ≡ (l, err e)
unfolding append
append_halted op table row l e h = ground arith

pub halt-IsWellFormed : (e : Error) (l : Log) → IsWellFormed l → IsWellFormed (halt e l)
unfolding halt
halt-IsWellFormed e l w = ground arith

-- The last event of a numbered list has the last number.
last-Numbered :
    (n : ℕ) (ev : Event) (evs : List Event)
    → Numbered n (ev ∷ evs)
    → (x : Event) × (last? (ev ∷ evs) ≡ some x) × (x.offset ≡ pos (n + length evs))
last-Numbered n ev [] h = (ev, refl, ground arith)
last-Numbered n ev (y ∷ evs) h =
    let (x, e, o) = last-Numbered (suc n) y evs h.1 in (x, e, ground arith)

-- LastOffset of a well-formed log is the number of its events.
pub last_offset-eq-len : (l : Log) → IsWellFormed l → last_offset l ≡ pos (len l)
unfolding last_offset len
last_offset-eq-len l w = go l.events w.numbered
  where
    go :
        (evs : List Event)
        → Numbered 1 evs
        → last_offset (record l { events = evs }) ≡ pos (length evs)
    go [] h = refl
    go (ev ∷ evs) h = let (x, e, o) = last-Numbered 1 ev evs h in ground arith

pub events-halt : (e : Error) (l : Log) → (halt e l).events ≡ l.events
unfolding halt
events-halt e l = ground arith
