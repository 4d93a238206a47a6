-- ===== src/Wal/Consumer.antt =====
-- internal/wal/consumer.go: the replication loop. One turn of the loop takes what the environment
-- answers in that turn, and `trace` holds what the outside world has seen, newest first.
use tether.Prelude.{
  ℕ, ◌*◌, ◌^◌, Bool, not, List, [], ◌∷◌, Option, none, some, Text, ◌=t◌, ◌==◌, Result, ok, err,
  ◌>>=◌, if◌then◌else◌,
}
use tether.Value.{Row}
use tether.Wal.Change.{Change, Op, Lsn}
use tether.Wal.Error.{Error, schema_drift, unknown_relation}
use tether.Wal.Relation.{
  RelationMessage, RelationMeta, Codec, TupleColumn, fingerprint_relation, decode_tuple,
}
use tether.Wal.Store.{Codecs, Store, Weather}

-- What is fixed while the consumer runs.
pub record Config : Type 0 where
  pub consumer_id : Text
  pub codecs : Codecs
  pub types : Option Codec

-- A durable commit, and a standby status update that was sent.
pub data Act : Type 0 where
  persisted : Lsn → Act
  acknowledged : Lsn → Act

-- The consumer, its loop variables, the database, and what has been seen.
pub record Consumer : Type 0 where
  pub rels : List (ℕ × RelationMeta)
  pub durable : Lsn
  pub next_standby : ℕ
  pub pending : List Change
  pub cur_xid : ℕ
  pub store : Store
  pub trace : List Act

-- pglogrepl's logical messages that the loop reads; `other_message` is any other.
pub data Logical : Type 0 where
  relation : RelationMessage → Logical
  begin : ℕ → Logical
  insert : ℕ → Option (List TupleColumn) → Logical
  update : ℕ → Option (List TupleColumn) → Option (List TupleColumn) → Logical
  delete : ℕ → Option (List TupleColumn) → Logical
  -- the commit's LSN and the transaction's end LSN
  commit : Lsn → Lsn → Logical
  other_message : Logical

-- What ReceiveMessage and the parsers of pglogrepl give in one turn.
pub data Received : Type 0 where
  timeout : Received
  -- a cancelled or expired context, and whether the caller's context is the one that ended
  context_ended : Bool → Received
  failed error_response not_copy_data empty_data : Received
  -- a keepalive and whether a reply is requested
  keepalive : Bool → Received
  bad_keepalive bad_xlogdata bad_logical other_byte : Received
  message : Logical → Received

-- One turn: the context at its head, the clock (once at the head and once for the next standby
-- time), whether status updates go out, the hook's answer, and the database's.
pub record Turn : Type 0 where
  pub ended : Bool
  pub now : ℕ
  pub after_status : ℕ
  pub status_sent : Bool
  pub hook_ok : Bool
  pub received : Received
  pub weather : Weather

-- 10 seconds in nanoseconds
abbrev pub standby_timeout : ℕ
standby_timeout = 10 * 10 ^ 9

abbrev pub Outcome : Type 0
Outcome = Consumer × Option Error

rel_in : ℕ → List (ℕ × RelationMeta) → Option RelationMeta
rel_in oid [] = none
rel_in oid ((i, m) ∷ rs) = if i == oid then some m else rel_in oid rs

put_rel : ℕ → RelationMeta → List (ℕ × RelationMeta) → List (ℕ × RelationMeta)
put_rel oid m [] = (oid, m) ∷ []
put_rel oid m ((i, x) ∷ rs) = if i == oid then (i, m) ∷ rs else (i, x) ∷ put_rel oid m rs

-- handleRelation: a known relation with another fingerprint stops the consumer.
unfoldable pub handle_relation : RelationMessage → Consumer → Outcome
unfolding rel_in put_rel
handle_relation m c =
    let fp = fingerprint_relation m in
    let meta : RelationMeta = record {
      namespace = m.namespace;
      relation = m.relation_name;
      fingerprint = fp;
      columns = m.columns;
    } in
    let stored = record c { rels = put_rel m.relation_id meta c.rels } in
    elim (rel_in m.relation_id c.rels) [
      | none ↦ (stored, none)
      | some prev ↦
          if not (prev.fingerprint =t fp)
          then (c, some (schema_drift m.namespace m.relation_name))
          else (stored, none)
    ]

-- Consumer.rel
unfoldable pub rel : ℕ → Consumer → Result Error RelationMeta
unfolding rel_in
rel oid c = elim (rel_in oid c.rels) [ none ↦ err (unknown_relation oid) | some m ↦ ok m ]

change_of : RelationMeta → Op → Option Row → Option Row → Change
change_of m op old new = record {
  schema = m.namespace;
  table = m.relation;
  op = op;
  relation_fingerprint = m.fingerprint;
  commit_lsn = 0;
  old = old;
  new = new;
}

module _ (cfg : Config) where
  unfoldable pub decode_insert : ℕ → Option (List TupleColumn) → Consumer → Result Error Change
  unfolding change_of
  decode_insert oid tuple c = do
    m ← rel oid c
    new ← decode_tuple cfg.types m tuple
    ok (change_of m Op.insert none new)

  unfoldable pub decode_update :
      ℕ → Option (List TupleColumn) → Option (List TupleColumn) → Consumer → Result Error Change
  unfolding change_of
  decode_update oid old_tuple new_tuple c = do
    m ← rel oid c
    old ← decode_tuple cfg.types m old_tuple
    new ← decode_tuple cfg.types m new_tuple
    ok (change_of m Op.update old new)

  unfoldable pub decode_delete : ℕ → Option (List TupleColumn) → Consumer → Result Error Change
  unfolding change_of
  decode_delete oid old_tuple c = do
    m ← rel oid c
    old ← decode_tuple cfg.types m old_tuple
    ok (change_of m Op.delete old none)
