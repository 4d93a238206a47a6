-- ===== src/Wal/Relation.antt =====
-- internal/wal/decode.go: relation metadata, the fingerprint of a relation, and the decoding of
-- tuples.
use tether.Prelude.{
  ℕ, ℤ, List, [], ◌∷◌, Option, none, some, Text, txt, ◌==◌, Result, ok, err, ◌>>=◌, if◌then◌else◌,
  insert,
}
use tether.Value.{Value, nil, string, Row, decimal, sprint_int, join}
use tether.Wal.Error.{Error, index_out_of_range, unknown_tuple_type}

-- pglogrepl's columns of a Relation message; the type modifier is signed.
pub record Column : Type 0 where
  pub name : Text
  pub data_type : ℕ
  pub type_modifier : ℤ
  pub flags : ℕ

pub record RelationMessage : Type 0 where
  pub relation_id : ℕ
  pub namespace : Text
  pub relation_name : Text
  pub columns : List Column

-- relationMeta
pub record RelationMeta : Type 0 where
  pub namespace : Text
  pub relation : Text
  pub fingerprint : Text
  pub columns : List Column

column_parts : List Column → List Text
column_parts [] = []
column_parts (c ∷ cs) =
    c.name ∷ decimal c.data_type ∷ sprint_int c.type_modifier ∷ decimal c.flags ∷ column_parts cs

-- fingerprintRelation
unfoldable pub fingerprint_relation : RelationMessage → Text
unfolding column_parts decimal sprint_int join
fingerprint_relation m = join (txt "|") (m.namespace ∷ m.relation_name ∷ column_parts m.columns)

-- pglogrepl's TupleDataColumn: the kind byte and the data.
pub record TupleColumn : Type 0 where
  pub kind : ℕ
  pub data_bytes : List ℕ

-- What pgx makes of a text value of a type; `none` where the type is not known or the text does
-- not decode. It is code of that package.
abbrev pub Codec : Type 0
Codec = ℕ → List ℕ → Option Value

-- decodeColumnValue: the text itself where the codec gives nothing; it never fails.
unfoldable pub decode_column_value : Option Codec → List ℕ → ℕ → Value
decode_column_value none bytes oid = string bytes
decode_column_value (some codec) bytes oid = elim (codec oid bytes) [
  | none ↦ string bytes
  | some v ↦ v
]

-- The loop of decodeTuple, over the tuple's columns and the relation's columns side by side.
decode_columns : Option Codec → List TupleColumn → List Column → Row → Result Error Row
unfolding decode_column_value
decode_columns codec [] cols out = ok out
decode_columns codec (t ∷ ts) [] out = err index_out_of_range
decode_columns codec (t ∷ ts) (c ∷ cols) out =
    let as_null = decode_columns codec ts cols (insert c.name nil out) in
    let unchanged = decode_columns codec ts cols out in
    let decoded =
      decode_columns codec ts cols
        (insert c.name (decode_column_value codec t.data_bytes c.data_type) out) in
    if t.kind == b'n'
    then as_null
    else if t.kind == b'u'
    then unchanged
    else if t.kind == b't'
    then decoded
    else if t.kind == b'b'
    then decoded
    else err (unknown_tuple_type c.name)

-- decodeTuple: no tuple gives a nil map.
unfoldable pub decode_tuple :
    Option Codec → RelationMeta → Option (List TupleColumn) → Result Error (Option Row)
unfolding decode_columns
decode_tuple codec rel none = ok none
decode_tuple codec rel (some ts) = do r ← decode_columns codec ts rel.columns []; ok (some r)
