-- ===== src/Mutate/Tests.antt =====
-- Mutations on a small database.
use tether.Prelude.{true, List, [], ◌∷◌, none, some, Text, txt, ◌≡◌, refl, ◌⊎◌, ◌=t◌}
use mathlib.Core.List.{Memᴰ}
use tether.Mutate.{
  reject, Database, answer_lost, Handler, Call, apply, apply_calls, is_reject, reject_reason,
}
use tether.Mutate.Once.{TakesEffect, apply_atomic, calls_at_most_once}

-- A handler that writes the name of the operation.
abbrev write_op : Handler Unit (List Text)
write_op op key claims args rows = (op ∷ rows, none)

abbrev refusing : Handler Unit (List Text)
refusing op key claims args rows = (op ∷ rows, some (reject (txt "no")))

abbrev call : Handler Unit (List Text) → Call Unit (List Text)
call handler = record {
  has_pool = true;
  key = txt "k1";
  op = txt "add";
  claims = tt;
  args = none;
  handler = some handler;
  is_reject_fn = some is_reject;
  reason_fn = some reject_reason;
  weather = record { begins = true; inserts = true; commit = answer_lost };
}

abbrev db : Database (List Text)
db = record { mutation_keys = txt "k0" ∷ []; rows = [] }

abbrev retries : List (Call Unit (List Text))
retries = call refusing ∷ call write_op ∷ call write_op ∷ []

-- The refused call leaves nothing, the lost answer is a committed call, and the retry is a duplicate.
retries_once :
    apply_calls retries db
    ≡ record { mutation_keys = txt "k1" ∷ txt "k0" ∷ []; rows = txt "add" ∷ [] }
unfolding apply_calls apply is_reject reject_reason ◌=t◌
retries_once = refl

calls_at_most_once_example :
    (apply_calls retries db ≡ db)
    ⊎ (c : Call Unit (List Text)) × Memᴰ c retries × TakesEffect c db (apply_calls retries db)
calls_at_most_once_example = calls_at_most_once (txt "k1") retries db (refl, (refl, (refl, tt)))

apply_atomic_example :
    ((apply (call write_op) db).0 ≡ db)
    ⊎ TakesEffect (call write_op) db (apply (call write_op) db).0
apply_atomic_example = apply_atomic (call write_op) db
