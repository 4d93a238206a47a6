-- ===== src/Mutate/Once.antt =====
-- Idempotency keys.
use tether.Prelude.{
  true, false, not, ◌&&◌, List, [], ◌∷◌, none, some, Text, ◌=t◌, =t_refl, ◌≡◌, refl, ◌∙◌, ap, arith,
  Option-cases, Bool-cases, inl, inr, ◌⊎◌, All,
}
use mathlib.Core.List.{Memᴰ}
use mathlib.Core.Path.{subst}
use tether.Mutate.{
  Database, Commit, committed, rolled_back, answer_lost, contains, Handler, Call, run_handler,
  apply, apply_calls,
}

-- What a call does to the database if it takes effect: its key is recorded, its handler returned
-- no error, and the rows are the handler's.
pub record TakesEffect {C D : Type 0} (c : Call C D) (before after : Database D) : Type 0 where
  pub new_key : contains c.key before.mutation_keys ≡ false
  pub recorded : after.mutation_keys ≡ c.key ∷ before.mutation_keys
  pub handler : Handler C D
  pub given : c.handler ≡ some handler
  pub returns : handler c.op c.key c.claims c.args before.rows ≡ (after.rows, none)

pub Commit-cases : (w : Commit) → (w ≡ committed) ⊎ (w ≡ rolled_back) ⊎ (w ≡ answer_lost)
Commit-cases committed = inl refl
Commit-cases rolled_back = inr (inl refl)
Commit-cases answer_lost = inr (inr refl)

module _ {C D : Type 0} where
  -- The state that a handler without error commits.
  abbrev after_handler : Handler C D → Call C D → Database D → Database D
  after_handler handler c db = record {
    mutation_keys = c.key ∷ db.mutation_keys;
    rows = (handler c.op c.key c.claims c.args db.rows).0;
  }

  run_handler_cases :
      (handler : Handler C D) (c : Call C D) (db : Database D)
      → ((run_handler handler c db).0 ≡ db)
        ⊎ ((run_handler handler c db).0 ≡ after_handler handler c db)
          × ((handler c.op c.key c.claims c.args db.rows).1 ≡ none)
  unfolding run_handler
  run_handler_cases handler c db =
      elim (Option-cases (handler c.op c.key c.claims c.args db.rows).1) [
        | inr (x, e) ↦ inl (ground arith)
        | inl e ↦ at (Commit-cases c.weather.commit) e
      ]
    where
      at :
          ((c.weather.commit ≡ committed)
            ⊎ (c.weather.commit ≡ rolled_back)
            ⊎ (c.weather.commit ≡ answer_lost))
          → (handler c.op c.key c.claims c.args db.rows).1 ≡ none
          → ((run_handler handler c db).0 ≡ db)
            ⊎ ((run_handler handler c db).0 ≡ after_handler handler c db)
              × ((handler c.op c.key c.claims c.args db.rows).1 ≡ none)
      at (inl w) e = inr (ground arith, e)
      at (inr (inl w)) e = inl (ground arith)
      at (inr (inr w)) e = inr (ground arith, e)

  -- Every way out of Apply but the last leaves the database as it was.
  apply_early :
      (c : Call C D) (db : Database D)
      → ((apply c db).0 ≡ db)
        ⊎ (contains c.key db.mutation_keys ≡ false)
          × (handler : Handler C D) × (c.handler ≡ some handler)
          × ((apply c db).0 ≡ (run_handler handler c db).0)
  unfolding apply
  apply_early c db = elim (Option-cases c.handler) [
    | inl e ↦ inl (ground arith)
    | inr (handler, given) ↦
        elim (Bool-cases
          (c.has_pool && not (c.key =t []) && c.weather.begins && c.weather.inserts)) [
            | inr broken ↦ inl (ground arith)
            | inl ready ↦ elim (Bool-cases (contains c.key db.mutation_keys)) [
              | inl old ↦ inl (ground arith)
              | inr fresh ↦ inr (fresh, handler, given, ground arith)
            ]
          ]
  ]

  -- A call is atomic: it leaves the database as it was, or its key was new and is recorded
  -- together with all that its handler wrote, the handler having returned no error.
  pub apply_atomic :
      (c : Call C D) (db : Database D) → ((apply c db).0 ≡ db) ⊎ TakesEffect c db (apply c db).0
  apply_atomic c db = elim (apply_early c db) [
    | inl e ↦ inl e
    | inr (fresh, handler, given, e) ↦ elim (run_handler_cases handler c db) [
      | inl e' ↦ inl (e ∙ e')
      | inr (e', quiet) ↦ inr (
          rw (e ∙ e') (record {
            new_key = fresh;
            recorded = refl;
            handler = handler;
            given = given;
            returns = ground (arith, quiet);
          }))
    ]
  ]

  calls_step :
      (c : Call C D) (cs : List (Call C D)) (db db' : Database D)
      → (apply c db).0 ≡ db'
      → apply_calls (c ∷ cs) db ≡ apply_calls cs db'
  unfolding apply_calls
  calls_step c cs db db' e = ap (apply_calls cs) e

  -- A call whose key is recorded changes nothing, whatever its handler.
  pub apply_recorded :
      (c : Call C D) (db : Database D)
      → contains c.key db.mutation_keys ≡ true
      → (apply c db).0 ≡ db
  unfolding apply
  apply_recorded c db h = ground arith

  calls_recorded :
      (k : Text) (cs : List (Call C D)) (db : Database D)
      → All (λ c. c.key ≡ k) cs
      → contains k db.mutation_keys ≡ true
      → apply_calls cs db ≡ db
  unfolding apply_calls
  calls_recorded k [] db same h = refl
  calls_recorded k (c ∷ cs) db same h =
      rw (apply_recorded c db (rw (same.0) h)) (calls_recorded k cs db same.1 h)

  contains_new :
      (c : Call C D) (before after : Database D)
      → TakesEffect c before after
      → contains c.key after.mutation_keys ≡ true
  unfolding contains
  contains_new c before after e = rw e.recorded (rw (=t_refl c.key))

  -- However often a client sends mutations with one key, with whatever handlers and whatever the
  -- database answers, at most one of the calls takes effect: the database ends as it began, or as
  -- one of the calls, made on the database as it began, leaves it.
  pub calls_at_most_once :
      (k : Text) (cs : List (Call C D)) (db : Database D)
      → All (λ c. c.key ≡ k) cs
      → (apply_calls cs db ≡ db) ⊎ (c : Call C D) × Memᴰ c cs × TakesEffect c db (apply_calls cs db)
  calls_at_most_once k [] db same = inl (unfold apply_calls in refl)
  calls_at_most_once k (c ∷ cs) db same = elim (apply_atomic c db) [
    | inl e ↦ elim (calls_at_most_once k cs db same.1) [
      | inl e' ↦ inl (calls_step c cs db db e ∙ e')
      | inr (d, m, t) ↦ inr (d, Memᴰ.tail m, rw (calls_step c cs db db e) t)
    ]
    | inr t ↦
        let done = calls_recorded k cs (apply c db).0 same.1 (
          subst (λ x. contains x (apply c db).0.mutation_keys ≡ true) same.0
            (contains_new c db (apply c db).0 t)) in
        inr (c, Memᴰ.head refl, rw (calls_step c cs db (apply c db).0 refl, done) t)
  ]
