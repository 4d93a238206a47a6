-- ===== src/Mutate/Answers.antt =====
-- What the result of Apply says about the database.
use tether.Prelude.{
  Bool, true, false, not, ◌&&◌, [], ◌∷◌, Option, none, some, Text, ◌=t◌, Result, ok, err, ◌≡◌, refl,
  arith, Option-cases, Bool-cases, inl, inr, ◌⊎◌,
}
use tether.Mutate.{
  HostError, Error, handler_failed, nil_pool, nil_handler, key_required, begin_failed,
  insert_key_failed, commit_failed, Database, Commit, committed, rolled_back, answer_lost, Applied,
  contains, Handler, Call, finish, refuse, run_handler, apply,
}
use tether.Mutate.Once.{TakesEffect}

refuse_cases :
    (test : Option (HostError → Bool)) (reason : Option (HostError → Text)) (x : HostError)
    → ((e : Error) × (refuse test reason x ≡ err e))
      ⊎ ((why : Text) × (refuse test reason x
            ≡ ok (record { duplicate = false; rejected = true; reason = why })))
unfolding refuse
refuse_cases none reason x = inl (handler_failed x, refl)
refuse_cases (some test) reason x = elim (Bool-cases (test x)) [
  | inl rejects ↦ inr (elim reason [ none ↦ [] | some f ↦ f x ], rw rejects)
  | inr other ↦ inl (handler_failed x, rw other)
]

module _ {C D : Type 0} where
  -- The result and the state of a call: applied, a duplicate, rejected, or an error.
  unfoldable pub Answers : Call C D → Database D → Database D × Result Error Applied → Type 0
  Answers c db (db', r) =
      ((r ≡ ok (record { duplicate = false; rejected = false; reason = [] }))
        × TakesEffect c db db')
      ⊎ ((r ≡ ok (record { duplicate = true; rejected = false; reason = [] }))
          × (contains c.key db.mutation_keys ≡ true)
          × (db' ≡ db))
      ⊎ ((reason : Text) × (r ≡ ok (record { duplicate = false; rejected = true; reason = reason }))
          × (db' ≡ db))
      ⊎ ((e : Error) × (r ≡ err e) × ((db' ≡ db) ⊎ TakesEffect c db db'))

  after_handler : Handler C D → Call C D → Database D → Database D
  after_handler handler c db = record {
    mutation_keys = c.key ∷ db.mutation_keys;
    rows = (handler c.op c.key c.claims c.args db.rows).0;
  }

  effect :
      (handler : Handler C D) (c : Call C D) (db : Database D)
      → c.handler ≡ some handler
      → contains c.key db.mutation_keys ≡ false
      → (handler c.op c.key c.claims c.args db.rows).1 ≡ none
      → TakesEffect c db (after_handler handler c db)
  unfolding after_handler
  effect handler c db given fresh quiet = record {
    new_key = fresh;
    recorded = refl;
    handler = handler;
    given = given;
    returns = ground (arith, quiet);
  }

  finish-Answers :
      (w : Commit) (c : Call C D) (db tx : Database D)
      → TakesEffect c db tx
      → Answers c db (finish w db tx)
  unfolding finish Answers
  finish-Answers committed c db tx t = inl (refl, t)
  finish-Answers rolled_back c db tx t = inr (inr (inr (commit_failed, refl, inl refl)))
  finish-Answers answer_lost c db tx t = inr (inr (inr (commit_failed, refl, inr t)))

  error-Answers : (c : Call C D) (db : Database D) (e : Error) → Answers c db (db, err e)
  unfolding Answers
  error-Answers c db e = inr (inr (inr (e, refl, inl refl)))

  reject-Answers :
      (c : Call C D) (db : Database D) (r : Result Error Applied)
      → ((e : Error) × (r ≡ err e))
        ⊎ ((why : Text) × (r ≡ ok (record { duplicate = false; rejected = true; reason = why })))
      → Answers c db (db, r)
  unfolding Answers
  reject-Answers c db r (inl (e, same)) = inr (inr (inr (e, same, inl refl)))
  reject-Answers c db r (inr (why, same)) = inr (inr (inl (why, same, refl)))

  handler-Answers :
      (handler : Handler C D) (c : Call C D) (db : Database D)
      → c.handler ≡ some handler
      → contains c.key db.mutation_keys ≡ false
      → Answers c db (run_handler handler c db)
  handler-Answers handler c db given fresh =
      elim (Option-cases (handler c.op c.key c.claims c.args db.rows).1) [
        | inr (x, e) ↦
            let same : run_handler handler c db ≡ (db, refuse c.is_reject_fn c.reason_fn x) =
              unfold run_handler in ground (arith, e) in
            rw same (
              reject-Answers c db (refuse c.is_reject_fn c.reason_fn x)
                (refuse_cases c.is_reject_fn c.reason_fn x))
        | inl quiet ↦
            let same : run_handler handler c db
                ≡ finish c.weather.commit db (after_handler handler c db) =
              unfold run_handler after_handler in ground (arith, quiet) in
            rw same (
              finish-Answers c.weather.commit c db (after_handler handler c db)
                (effect handler c db given fresh quiet))
      ]

  broken_fails :
      (handler : Handler C D) (c : Call C D) (db : Database D)
      → c.handler ≡ some handler
      → (c.has_pool && not (c.key =t []) && c.weather.begins && c.weather.inserts) ≡ false
      → (e : Error) × (apply c db ≡ (db, err e))
  unfolding apply
  broken_fails handler c db given broken = elim (Bool-cases c.has_pool) [
    | inr shut ↦ (nil_pool, ground arith)
    | inl pool ↦ elim (Bool-cases (c.key =t [])) [
      | inl blank ↦ (key_required, ground arith)
      | inr keyed ↦ elim (Bool-cases c.weather.begins) [
        | inr fails ↦ (begin_failed, ground arith)
        | inl begins ↦ (insert_key_failed, ground arith)
      ]
    ]
  ]

  -- Apply's result tells the truth about the database. Applied: the key was new, the handler
  -- returned no error, and what it wrote is there with the key's record. Duplicate: the key was
  -- recorded, and nothing changes. Rejected: nothing changes. Only an error leaves it open whether
  -- nothing changed or the call took effect, as when the answer to the commit is lost.
  pub apply-Answers : (c : Call C D) (db : Database D) → Answers c db (apply c db)
  apply-Answers c db = elim (Option-cases c.handler) [
    | inl missing ↦ elim (Bool-cases c.has_pool) [
      | inr shut ↦
          let same : apply c db ≡ (db, err nil_pool) = unfold apply in ground (arith, shut) in
          rw same (error-Answers c db nil_pool)
      | inl pool ↦
          let same : apply c db ≡ (db, err nil_handler) =
            unfold apply in ground (arith, pool, missing) in
          rw same (error-Answers c db nil_handler)
    ]
    | inr (handler, given) ↦
        elim (Bool-cases
          (c.has_pool && not (c.key =t []) && c.weather.begins && c.weather.inserts)) [
            | inr broken ↦
                let (e, same) = broken_fails handler c db given broken in
                rw same (error-Answers c db e)
            | inl ready ↦ elim (Bool-cases (contains c.key db.mutation_keys)) [
              | inl old ↦
                  let same : apply c db
                      ≡ (db, ok (record { duplicate = true; rejected = false; reason = [] })) =
                    unfold apply in ground arith in
                  rw same (unfold Answers in inr (inl (refl, old, refl)))
              | inr fresh ↦
                  let same : apply c db ≡ run_handler handler c db = unfold apply in ground arith in
                  rw same (handler-Answers handler c db given fresh)
            ]
          ]
  ]
