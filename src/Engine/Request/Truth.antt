-- ===== src/Engine/Request/Truth.antt =====
-- What a client is told of its mutation.
use tether.Prelude.{
  true, false, ◌&&◌, [], some, Text, txt, Result, ok, ◌≡◌, refl, inl, inr, ◌⊎◌, Bool-cases,
  Result-cases, arith,
}
use tether.Engine.Request.{
  MutationMessage, HostHandler, RequestAnswer, call_of, answer_of, mutation_answer, mutation_error,
}
use tether.Mutate.{Mutation, Database, contains, new_mutation, apply, Applied, Error}
use tether.Mutate.Answers.{Answers, apply-Answers}
use tether.Mutate.Once.{TakesEffect}
use tether.Transport
use tether.Transport.{Message}

module _ {C D : Type 0} (host : HostHandler C D) where
  -- The message is true of what happened to the database.
  pub Truthful : RequestAnswer → C → MutationMessage → Database D → Message × Database D → Type 0
  Truthful a claims msg db (m, db') =
      let call =
        call_of host a.weather
          (record { op = msg.op; key = msg.key; claims = claims; args = msg.args }) in
      ((m ≡ Transport.mutation_ok msg.id false) × TakesEffect call db db')
      ⊎ ((m ≡ Transport.mutation_ok msg.id true)
          × (contains msg.key db.mutation_keys ≡ true)
          × (db' ≡ db))
      ⊎ ((reason : Text) × (m ≡ Transport.mutation_reject msg.id reason) × (db' ≡ db))
      ⊎ ((code : Text) × (m ≡ Transport.error code []) × ((db' ≡ db) ⊎ TakesEffect call db db'))

  told :
      (a : RequestAnswer) (claims : C) (msg : MutationMessage) (db : Database D)
      (r : Database D × Result Error Applied)
      → Answers
          (call_of host a.weather
            (record { op = msg.op; key = msg.key; claims = claims; args = msg.args }))
          db
          r
      → Truthful a claims msg db (answer_of msg.id r.1, r.0)
  unfolding Truthful Answers answer_of call_of
  told a claims msg db (db', r) (inl (e, t)) = inl (rw e, t)
  told a claims msg db (db', r) (inr (inl (e, old, same))) = inr (inl (rw e, old, same))
  told a claims msg db (db', r) (inr (inr (inl (reason, e, same)))) =
      inr (inr (inl (reason, rw e, same)))
  told a claims msg db (db', r) (inr (inr (inr (x, e, state)))) =
      inr (inr (inr (txt "shape_halted", rw e, state)))

  fails :
      (a : RequestAnswer) (claims : C) (msg : MutationMessage) (db : Database D) (code : Text)
      → Truthful a claims msg db (Transport.error code [], db)
  unfolding Truthful
  fails a claims msg db code = inr (inr (inr (code, refl, inl refl)))

  refused :
      (a : RequestAnswer) (claims : C) (msg : MutationMessage) (db : Database D) (reason : Text)
      → Truthful a claims msg db (Transport.mutation_reject msg.id reason, db)
  unfolding Truthful
  refused a claims msg db reason = inr (inr (inl (reason, refl, refl)))

  made :
      (op key : Text) (claims : C) (args : _) (m : Mutation C)
      → new_mutation op key claims args ≡ ok m
      → record { op = op; key = key; claims = claims; args = args } ≡ m
  unfolding new_mutation
  made op key claims args m e = ground arith

  -- handleMutation tells the truth. On mutation_ok, what the host's handler wrote is committed with
  -- the key's record, now or, if the message says duplicate, by an earlier call with this key; on
  -- mutation_reject nothing changed; and only on an error is it open whether nothing changed or the
  -- mutation took effect. Whatever the pool, the tables and the transaction do.
  pub mutation_answer-Truthful :
      (a : RequestAnswer) (claims : C) (msg : MutationMessage) (db : Database D)
      → Truthful a claims msg db (mutation_answer (some host) a claims msg db)
  mutation_answer-Truthful a claims msg db = elim (Bool-cases (a.has_pool && a.has_schema)) [
    | inr broken ↦
        let same : mutation_answer (some host) a claims msg db
            ≡ (Transport.error (txt "shape_halted") [], db) =
          unfold mutation_answer in ground arith in
        rw same (fails a claims msg db (txt "shape_halted"))
    | inl ready ↦ elim (Result-cases (new_mutation msg.op msg.key claims msg.args)) [
      | inr (e, bad) ↦
          let same : mutation_answer (some host) a claims msg db
              ≡ (Transport.mutation_reject msg.id (mutation_error e), db) =
            unfold mutation_answer in ground (arith, bad) in
          rw same (refused a claims msg db (mutation_error e))
      | inl (m, good) ↦
          let r = apply (call_of host a.weather m) db in
          let same : mutation_answer (some host) a claims msg db ≡ (answer_of msg.id r.1, r.0) =
            unfold mutation_answer in ground (arith, good) in
          let answers : Answers
              (call_of host a.weather
                (record { op = msg.op; key = msg.key; claims = claims; args = msg.args }))
              db r =
            rw (made msg.op msg.key claims msg.args m good)
              (apply-Answers (call_of host a.weather m) db) in
          rw same (told a claims msg db r answers)
    ]
  ]
