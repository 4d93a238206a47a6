-- ===== src/Engine/Cursor/Tests.antt =====
-- Two rows, a fan-out that fails between them, and one that goes on.
use tether.Prelude.{ℕ, Bool, true, List, [], ◌∷◌, Option, none, some, txt, ◌≡◌, refl, arith}
use tether.Engine.Cursor.{Answer, Feed}
use tether.Engine.Cursor.Once.{Fans}
use tether.Engine.Cursor.Runs.{Act, added, fanned, acts, acts-Fans}
use tether.Transport.{Message}
use tether.Value.{Runtime}
use tether.Wal.Change.{Op}
use tether.Wal.Store.{Codecs, LogRow}

abbrev go : Runtime
go = record { sprint_float = λ x. []; sprint_other = λ x. []; round = λ z. 0 }

abbrev takes_all : Message → Bool
takes_all m = true

abbrev codecs : Codecs
codecs = record {
  marshal = λ r. some (txt "{}");
  unmarshal = λ t. some [];
  print_lsn = λ l. l ∷ [];
  parse_lsn = λ t. some 3;
}

abbrev row : ℕ → LogRow
row n = record {
  id = n;
  consumer_id = txt "tether-engine";
  lsn = txt "0/3";
  xid = 700;
  seq = n;
  schema_name = txt "public";
  table_name = txt "todos";
  op = Op.insert;
  relation_fingerprint = [];
  old_row = none;
  new_row = some (txt "{}");
}

abbrev answer : Option ℕ → Answer
answer failing = record { has_pool = true; queries = true; failing = failing; ends = true }

abbrev fresh_feed : Feed Unit
fresh_feed = record { cursor = 0; engine = record { streams = []; sessions = [] } }

abbrev steps : List Act
steps = fanned (answer (some 1)) ∷ added (row 3 ∷ []) ∷ fanned (answer none) ∷ []

log_end :
    (acts codecs takes_all go steps (row 1 ∷ row 2 ∷ [], fresh_feed)).0 ≡ row 1 ∷ row 2 ∷ row 3 ∷ []
unfolding acts
log_end = refl

acts-Fans_example :
    let end = acts codecs takes_all go steps (row 1 ∷ row 2 ∷ [], fresh_feed) in
    Fans codecs takes_all go end.0 fresh_feed end.1
unfolding acts
acts-Fans_example =
    acts-Fans codecs takes_all go steps (row 1 ∷ row 2 ∷ []) fresh_feed
      (omega arith, (omega arith, (omega arith, tt)))
