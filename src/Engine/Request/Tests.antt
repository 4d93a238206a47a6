-- ===== src/Engine/Request/Tests.antt =====
-- A mutation whose commit's answer is lost, and its retry.
use tether.Prelude.{true, List, [], ◌∷◌, none, some, Text, txt, ◌≡◌, refl, ◌=t◌}
use tether.Engine.Request.{
  MutationMessage, HostHandler, RequestAnswer, mutation_answer, call_of, answer_of,
}
use tether.Engine.Request.Truth.{Truthful, mutation_answer-Truthful}
use tether.Mutate.{Database, Commit, committed, answer_lost, new_mutation, apply}
use tether.Transport
use tether.Transport.{Message}

-- A handler that writes the name of the operation.
abbrev host : HostHandler Unit (List Text)
host m rows = (m.op ∷ rows, none)

abbrev answer : Commit → RequestAnswer
answer how = record {
  has_pool = true;
  has_schema = true;
  weather = record { begins = true; inserts = true; commit = how };
}

abbrev add : MutationMessage
add = record { id = txt "7"; op = txt "add"; key = txt "k1"; args = none }

abbrev db : Database (List Text)
db = record { mutation_keys = []; rows = [] }

mutation_answer-Truthful_example :
    Truthful host
      (answer committed)
      tt
      add
      db
      (mutation_answer (some host) (answer committed) tt add db)
mutation_answer-Truthful_example = mutation_answer-Truthful host (answer committed) tt add db

-- The client is told of an error, and its retry that the mutation was applied before.
retry :
    let lost = mutation_answer (some host) (answer answer_lost) tt add db in
    (lost.0 ≡ Transport.error (txt "shape_halted") [])
    × ((mutation_answer (some host) (answer committed) tt add lost.1).0
        ≡ Transport.mutation_ok (txt "7") true)
unfolding mutation_answer new_mutation apply call_of answer_of ◌=t◌
retry = (refl, refl)
