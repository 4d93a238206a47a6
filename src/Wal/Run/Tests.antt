-- ===== src/Wal/Run/Tests.antt =====
-- A short life of the consumer.
use tether.Prelude.{
  ◌↔◌, true, false, List, [], ◌∷◌, none, some, txt, ◌≡◌, refl, ok, lookup, ◌=t◌, All, ◌⊎◌, ◌≢◌,
  ◌++◌,
}
use tether.Wal.Change.{Change, Op}
use tether.Wal.Consumer.{
  Config, persisted, acknowledged, Consumer, begin, insert, commit, relation, keepalive, message,
  Received, Turn, handle_relation, decode_insert, rel,
}
use tether.Wal.Relation.{decode_tuple}
use tether.Wal.Run.{run_turns, start, resolve_start_lsn, turn, persist_and_ack, stamp, end_lsn}
use tether.Wal.Run.Acks.{InOrder, run_turns-InOrder}
use tether.Wal.Store.{
  Codecs, LogRow, has_row, Store, Weather, Commit, committed, persist, persist_changes,
  persist_change,
}
use tether.Wal.Store.Fresh.{IsFresh, RowsOf, persist_exact}
use tether.Wal.Store.Durable.{Written, persist_durable}
use tether.Wal.Store.Twice.{Logged, SameTables, persist_again}
use tether.Wal.Store.Total.{persist_succeeds_iff, Marshals, Spares}

-- A JSON text and an LSN's text that need not be the real ones.
abbrev codecs : Codecs
codecs = record {
  marshal = λ r. some (txt "{}");
  unmarshal = λ t. some [];
  print_lsn = λ l. l ∷ [];
  parse_lsn = λ t. some 3;
}

abbrev cfg : Config
cfg = record { consumer_id = txt "tether-engine"; codecs = codecs; types = none }

abbrev st : Store
st = record { change_log = []; checkpoint = (txt "tether-engine", txt "0/3") ∷ []; next_id = 1 }

abbrev fair : Commit → Weather
fair how = record { begins = true; failing = none; drawn = 0; upserts = true; commit = how }

abbrev get : Received → Commit → Turn
get what how = record {
  ended = false;
  now = 0;
  after_status = 0;
  status_sent = true;
  hook_ok = true;
  received = what;
  weather = fair how;
}

-- A relation, a transaction with one insert, a keepalive that wants a reply, and one more turn.
abbrev turns : List Turn
turns =
    get
      (message (
        relation (record {
          relation_id = 16;
          namespace = txt "public";
          relation_name = txt "todos";
          columns = [];
        })))
      committed
    ∷ get (message (begin 700)) committed
    ∷ get (message (insert 16 (some []))) committed
    ∷ get (message (commit 9 10)) committed
    ∷ get (keepalive true) committed
    ∷ []

abbrev consumer : Consumer
consumer = record {
  rels = [];
  durable = 3;
  next_standby = 10000000000;
  pending = [];
  cur_xid = 0;
  store = st;
  trace = [];
}

starts : start cfg 0 st ≡ ok consumer
unfolding start resolve_start_lsn lookup ◌=t◌
starts = refl

run_turns-InOrder_example : InOrder consumer.durable (run_turns cfg turns consumer).0.trace
run_turns-InOrder_example = run_turns-InOrder cfg 0 st turns consumer starts

acts : (run_turns cfg turns consumer).0.trace ≡ acknowledged 10 ∷ persisted 10 ∷ []
unfolding run_turns turn handle_relation decode_insert rel decode_tuple persist_and_ack persist
    persist_changes stamp persist_change end_lsn
acts = refl

abbrev change : Change
change = record {
  schema = txt "public";
  table = txt "todos";
  op = Op.delete;
  relation_fingerprint = [];
  commit_lsn = 10;
  old = some [];
  new = none;
}

abbrev after_one : Store
after_one = (persist codecs (txt "tether-engine") (fair committed) 10 700 (change ∷ []) st).0

persist_succeeds_iff_example :
    ((persist codecs (txt "tether-engine") (fair committed) 10 700 (change ∷ []) st).1 ≡ none) ↔ (
      (true ≡ true)
      × (All (Marshals codecs) (change ∷ []) × Spares none 0 1)
      × (true ≡ true)
      × (committed ≡ committed))
persist_succeeds_iff_example =
    persist_succeeds_iff codecs (txt "tether-engine") 10 700 (fair committed) (change ∷ []) st

succeeds : (persist codecs (txt "tether-engine") (fair committed) 10 700 (change ∷ []) st).1 ≡ none
succeeds =
    (persist_succeeds_iff codecs (txt "tether-engine") 10 700 (fair committed) (change ∷ []) st).1
      (refl, ((((txt "{}", refl), tt), tt), λ q e. cc), refl, refl)

persist_durable_example :
    (lookup (txt "tether-engine") after_one.checkpoint ≡ some (10 ∷ []))
    × ((new : List LogRow) × (after_one.change_log ≡ st.change_log ++ new))
    × Logged (txt "tether-engine") (10 ∷ []) 0 (change ∷ []) after_one.change_log
    × Written codecs (txt "tether-engine") 10 700 st.change_log after_one.change_log 0 (change ∷ [])
persist_durable_example =
    persist_durable codecs (txt "tether-engine") 10 700 (fair committed) (change ∷ []) st succeeds

persist_again_example :
    (persist codecs
      (txt "tether-engine")
      (fair committed)
      10
      701
      (change ∷ [])
      after_one).0.change_log
    ≡ after_one.change_log
persist_again_example =
    persist_again codecs (txt "tether-engine") 10 701 (fair committed) (change ∷ []) after_one
      (persist_durable codecs (txt "tether-engine") 10 700 (fair committed) (change ∷ []) st
        succeeds).2

st-IsFresh : IsFresh codecs (txt "tether-engine") 10 700 0 st
unfolding IsFresh has_row
st-IsFresh q le = refl

persist_exact_example :
    let out = persist codecs (txt "tether-engine") (fair committed) 10 700 (change ∷ []) st in
    SameTables st out.0 × (out.1 ≢ none)
    ⊎ (rs : List LogRow) × (out.0.change_log ≡ [] ++ rs)
      × RowsOf codecs (txt "tether-engine") 10 700 0 1 (change ∷ []) rs
      × (lookup (txt "tether-engine") out.0.checkpoint ≡ some (10 ∷ []))
persist_exact_example =
    persist_exact codecs (txt "tether-engine") 10 700 (fair committed) (change ∷ []) st st-IsFresh
