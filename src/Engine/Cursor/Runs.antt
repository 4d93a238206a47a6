-- ===== src/Engine/Cursor/Runs.antt =====
-- Fan-outs one after the other, while the consumer adds rows.
use tether.Prelude.{
  ℕ, Bool, List, [], ◌∷◌, ◌++◌, none, ◌≡◌, refl, sym, ◌∙◌, inl, inr, Bool-cases, arith,
}
use mathlib.Core.List.{append_assoc, append-nil}
use tether.Engine.Cursor.{Answer, Feed, above, fan_out_new_changes}
use tether.Engine.Cursor.Once.{Rising, Fans, Fans-refl, Fans-trans, fan_rows-Fans}
use tether.Transport.{Message}
use tether.Value.{Runtime}
use tether.Wal.Store.{Codecs, LogRow}

-- What happens: the consumer adds rows to the log, or the engine fans out.
pub data Act : Type 0 where
  added : List LogRow → Act
  fanned : Answer → Act

Rising-front : (n : ℕ) (xs ys : List LogRow) → Rising n (xs ++ ys) → Rising n xs
Rising-front n [] ys u = tt
Rising-front n (r ∷ xs) ys (h, u) = (h, Rising-front r.id xs ys u)

module _ (cod : Codecs) (marshals : Message → Bool) (go : Runtime) {C : Type 0} where
  -- One fan-out, whatever the database answers and wherever it fails, dispatches a front part of the
  -- rows behind the cursor, in order, and the cursor then stands just behind this part, also for
  -- rows that are added later; if it returns no error, the part is all of them. The rows' ids must
  -- rise.
  pub fan_out_new_changes-Fans :
      (w : Answer) (log : List LogRow) (fd : Feed C)
      → Rising 0 log
      → let (fd', e) = fan_out_new_changes cod marshals go w log fd in
        Fans cod marshals go log fd fd' × (e ≡ none → above fd'.cursor log ≡ [])
  unfolding fan_out_new_changes
  fan_out_new_changes-Fans w log fd u = elim (Bool-cases w.has_pool) [
    | inr shut ↦ rw shut (Fans-refl cod marshals go log fd, λ e. absurd (ground arith))
    | inl there ↦ elim (Bool-cases w.queries) [
      | inr fails ↦ rw (there, fails) (Fans-refl cod marshals go log fd, λ e. absurd (ground arith))
      | inl asks ↦
          rw (there, asks)
            (fan_rows-Fans cod marshals go w.failing w.ends (above fd.cursor log) log fd u refl)
    ]
  ]

  act : Act → List LogRow × Feed C → List LogRow × Feed C
  act (added rs) (log, fd) = (log ++ rs, fd)
  act (fanned w) (log, fd) = (log, (fan_out_new_changes cod marshals go w log fd).0)

  unfoldable pub acts : List Act → List LogRow × Feed C → List LogRow × Feed C
  unfolding act
  acts [] st = st
  acts (a ∷ steps) st = acts steps (act a st)

  Fans-more :
      (log more : List LogRow) (fd fd' : Feed C)
      → Fans cod marshals go log fd fd'
      → Fans cod marshals go (log ++ more) fd fd'
  Fans-more log more fd fd' f = record {
    done = f.done;
    splits = λ later u.
        rw (append_assoc log more later)
          (f.splits (more ++ later) (rw (append_assoc log more later) at u));
    dispatched = f.dispatched;
  }

  acts_log :
      (steps : List Act) (log : List LogRow) (fd : Feed C)
      → (more : List LogRow) × ((acts steps (log, fd)).0 ≡ log ++ more)
  unfolding acts
  acts_log [] log fd = ([], sym (append-nil log))
  acts_log (added rs ∷ steps) log fd =
      let (more, e) = acts_log steps (log ++ rs) fd in (rs ++ more, e ∙ append_assoc log rs more)
  acts_log (fanned w ∷ steps) log fd =
      acts_log steps log (fan_out_new_changes cod marshals go w log fd).0

  -- Any series of fan-outs, each failing where it may, while rows are added to the log in between:
  -- in the end the engine is as if a front part of the rows that the first cursor has not passed had
  -- been dispatched, in the order of their ids and each of them once, and the cursor stands just
  -- behind this part. So a failed fan-out never makes a row be dispatched twice, or be passed over
  -- unless its LSN does not parse. The ids of the log in the end must rise.
  pub acts-Fans :
      (steps : List Act) (log : List LogRow) (fd : Feed C)
      → Rising 0 (acts steps (log, fd)).0
      → Fans cod marshals go (acts steps (log, fd)).0 fd (acts steps (log, fd)).1
  unfolding acts
  acts-Fans [] log fd u = Fans-refl cod marshals go log fd
  acts-Fans (added rs ∷ steps) log fd u = acts-Fans steps (log ++ rs) fd u
  acts-Fans (fanned w ∷ steps) log fd u =
      let fd' = (fan_out_new_changes cod marshals go w log fd).0 in
      let (more, e) = acts_log steps log fd' in
      let first = (fan_out_new_changes-Fans w log fd (Rising-front 0 log more (rw e at u))).0 in
      Fans-trans cod marshals go (acts steps (log, fd')).0 fd fd' (acts steps (log, fd')).1
        (rw e (Fans-more log more fd fd' first)) (acts-Fans steps log fd' u)
