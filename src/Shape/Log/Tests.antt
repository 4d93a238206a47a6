-- ===== src/Shape/Log/Tests.antt =====
-- The shape log on concrete inputs.
use tether.Prelude.{List, [], ◌∷◌, none, some, txt, pos, true, ◌≡◌, refl, drop, arith}
use tether.Shape.Error.{schema_drift}
use tether.Shape.Log.{EventOp, Log, halt, append, after, last_offset}
use tether.Shape.Log.Offsets.{IsWellFormed, append-IsWellFormed}
use tether.Shape.Log.Resume.{Write, append_all, after-drop, after-append_all}
use tether.Value.{int}

abbrev two : Log
two = record {
  next = pos 3;
  events =
      record { offset = pos 1; op = EventOp.insert; table = txt "todos"; row = none }
      ∷ record { offset = pos 2; op = EventOp.delete; table = txt "todos"; row = none }
      ∷ [];
  halted = none;
}

two-IsWellFormed : IsWellFormed two
two-IsWellFormed = record { numbered = (refl, (refl, tt)); next = refl; room = omega arith }

abbrev writes : List Write
writes =
    (EventOp.update, txt "todos", some ((txt "id", int (pos 7)) ∷ []))
    ∷ (EventOp.delete, txt "todos", none)
    ∷ []

after-drop_example : after (pos 1) two ≡ (drop 1 two.events, true)
after-drop_example = after-drop (pos 1) two two-IsWellFormed

after-append_all_example :
    after (last_offset two) (append_all writes two).0 ≡ ((append_all writes two).1, true)
after-append_all_example = after-append_all writes two refl two-IsWellFormed (omega arith)

append-IsWellFormed_example : IsWellFormed (append EventOp.update (txt "todos") none two).0
append-IsWellFormed_example =
    append-IsWellFormed EventOp.update (txt "todos") none two two-IsWellFormed (omega arith)

-- An offset that the log never gave is answered, with no events.
beyond_newest : after (pos 900) two ≡ ([], true)
unfolding after
beyond_newest = refl

-- The first error that halts a log stays.
halted_once :
    (halt (schema_drift (txt "b")) (halt (schema_drift (txt "a")) two)).halted
    ≡ some (schema_drift (txt "a"))
unfolding halt
halted_once = refl
