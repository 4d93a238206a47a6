-- ===== src/Shape/Log/Resume.antt =====
-- What a client gets that resumes from an offset.
use tether.Prelude.{
  ℕ, zero, suc, ◌+◌, ◌<◌, ◌≡◌, refl, sym, ap, not, Bool, true, false, List, [], ◌∷◌, ◌++◌, Option,
  none, Text, ℤ, pos, negsuc, ◌&&◌, ◌<z◌, ◌=z◌, inc64, Result, ok, err, length, length-append, drop,
  max_int64, arith,
}
use tether.Shape.Error.{Error}
use tether.Shape.Log.{Event, EventOp, Log, append, after, after_loop, last_offset, len}
use tether.Shape.Log.Offsets.{
  Numbered, IsWellFormed, append_running, append-IsWellFormed, last_offset-eq-len,
}
use tether.Value.{Row}
use mathlib.Core.List.{append-nil, append_assoc}

keeps_all :
    (z : ℤ) (n : ℕ) (evs : List Event)
    → Numbered (suc n) evs
    → (z <z pos (suc n)) ≡ true
    → after_loop z evs ≡ evs
unfolding after_loop
keeps_all z n [] h e = refl
keeps_all (pos a) n (ev ∷ evs) h e = ground (arith, keeps_all (pos a) (suc n) evs h.1)
keeps_all (negsuc a) n (ev ∷ evs) h e = ground (arith, keeps_all (negsuc a) (suc n) evs h.1)

after_loop-drop :
    (k n : ℕ) (evs : List Event) → Numbered (suc n) evs → after_loop (pos (n + k)) evs ≡ drop k evs
unfolding after_loop
after_loop-drop zero n evs h = keeps_all (pos (n + 0)) n evs h (ground arith)
after_loop-drop (suc k) n [] h = refl
after_loop-drop (suc k) n (ev ∷ evs) h = ground (arith, after_loop-drop k (suc n) evs h.1)

-- How many events of a log an offset covers: none, if it is negative.
abbrev pub covered : ℤ → ℕ
covered (pos k) = k
covered (negsuc k) = 0

abbrev pub is_empty {ℓ} : {A : Type ℓ} → List A → Bool
is_empty [] = true
is_empty (x ∷ xs) = false

-- After on a well-formed log, at any offset: it returns the events behind the first k, where k is
-- the offset (0 if that is negative), and refuses exactly when the log is empty and the offset is
-- not 0.
pub after-drop :
    (z : ℤ) (l : Log)
    → IsWellFormed l
    → after z l ≡ (drop (covered z) l.events, not (is_empty l.events && not (z =z pos 0)))
unfolding after
after-drop z l w = go z l.events w.numbered
  where
    go :
        (z : ℤ) (evs : List Event)
        → Numbered 1 evs
        → after z (record l { events = evs })
          ≡ (drop (covered z) evs, not (is_empty evs && not (z =z pos 0)))
    go (pos zero) [] h = refl
    go (pos (suc k)) [] h = ground arith
    go (negsuc k) [] h = refl
    go (pos k) (ev ∷ evs) h = ground (arith, after_loop-drop k 0 (ev ∷ evs) h)
    go (negsuc k) (ev ∷ evs) h = ground (arith, keeps_all (negsuc k) 0 (ev ∷ evs) h)

-- Calls of Append in turn, and the events that those that succeed return.
abbrev pub Write : Type 0
Write = EventOp × Text × Option Row

note : Log × Result Error Event → (Log → Log × List Event) → Log × List Event
note (l, ok ev) rest = let (l', evs) = rest l in (l', ev ∷ evs)
note (l, err e) rest = rest l

unfoldable pub append_all : List Write → Log → Log × List Event
unfolding note
append_all [] l = (l, [])
append_all ((op, table, row) ∷ ws) l = note (append op table row l) (append_all ws)

append_all_lem :
    (ws : List Write) (l : Log)
    → l.halted ≡ none
    → IsWellFormed l
    → length l.events + length ws < max_int64
    → IsWellFormed (append_all ws l).0
      × ((append_all ws l).0.events ≡ l.events ++ (append_all ws l).1)
      × (length (append_all ws l).1 ≡ length ws)
unfolding append_all
append_all_lem [] l run w room = (w, sym (append-nil l.events), refl)
append_all_lem ((op, table, row) ∷ ws) l run w room =
    let ev : Event = record { offset = l.next; op = op; table = table; row = row } in
    let l' : Log = record l { next = inc64 l.next; events = l.events ++ ev ∷ [] } in
    let w' : IsWellFormed l' =
      rw (append_running op table row l run) at
        (append-IsWellFormed op table row l w (omega arith)) in
    let (v, e, n) = append_all_lem ws l' run w' (omega (arith, length-append l.events (ev ∷ []))) in
    rw (append_running op table row l run) (v, rw e (append_assoc l.events (ev ∷ []) _), ap suc n)

drop-append {ℓ} : {A : Type ℓ} (xs ys : List A) → drop (length xs) (xs ++ ys) ≡ ys
drop-append [] ys = refl
drop-append (x ∷ xs) ys = drop-append xs ys

answer_tail {ℓ} :
    {A : Type ℓ} (xs ys : List A)
    → ◌≡◌ {A = List A × Bool}
        (drop (length xs) (xs ++ ys), not (is_empty (xs ++ ys) && not (pos (length xs) =z pos 0)))
        (ys, true)
answer_tail [] [] = refl
answer_tail [] (y ∷ ys) = refl
answer_tail (x ∷ xs) ys = rw (drop-append xs ys)

-- A client that has read a well-formed running log up to its newest offset resumes, after any
-- further calls of Append, with exactly the events that these returned, in order, none lost and
-- none sent twice.
pub after-append_all :
    (ws : List Write) (l : Log)
    → l.halted ≡ none
    → IsWellFormed l
    → length l.events + length ws < max_int64
    → after (last_offset l) (append_all ws l).0 ≡ ((append_all ws l).1, true)
after-append_all ws l run w room =
    let (v, e, n) = append_all_lem ws l run w room in
    rw (last_offset-eq-len l w, after-drop (pos (len l)) (append_all ws l).0 v, e)
      (unfold len in answer_tail l.events (append_all ws l).1)
