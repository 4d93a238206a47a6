-- ===== src/Snapshot/Tests.antt =====
-- A snapshot of one row.
use tether.Prelude.{
  All, true, false, List, [], ◌∷◌, Option, some, Text, txt, ◌=t◌, pos, ok, ◌≡◌, refl, Unicode,
  runes, is_ascii, is_letter, insert,
}
use tether.Shape.Filter.{op_is_null}
use tether.Shape.Filter.Parse
use tether.Shape.Filter.Sql.{sql_clause, sql_preds}
use tether.Snapshot.{
  Request, Snap, Transaction, validate_ident, select_list, read_rows, take, take_tx, row_into,
}
use tether.Shape.Filter.Sql.Parts.{Renders}
use tether.Snapshot.Statement.{IsIdent, Statement}
use tether.Snapshot.Reads.{Reads, take-Reads}
use tether.Value.{Value, nil, int64}
use tether.Wal.Change.{Lsn}

abbrev tables : Unicode
tables = record {
  upper = λ s. s;
  trim = λ s. s;
  decode = λ s. s;
  letter = λ r. false;
  digit = λ r. false;
}

abbrev parse_lsn : Text → Option Lsn
parse_lsn s = some 7

abbrev tx : Transaction
tx = record {
  begins = true;
  lsn = some (txt "0/7");
  query = λ sql args. some (record {
    fields = txt "id" ∷ txt "done" ∷ [];
    values = some (int64 (pos 1) ∷ nil ∷ []) ∷ [];
    ends = true;
  });
  commits = true;
}

abbrev request : Request
request = record {
  schema = [];
  table = txt "todos";
  columns = [];
  filter = record { preds = record { column = txt "done"; op = op_is_null; value = nil } ∷ [] };
}

abbrev snap : Snap
snap = record { lsn = 7; rows = ((txt "id", int64 (pos 1)) ∷ (txt "done", nil) ∷ []) ∷ [] }

taken : take tables parse_lsn true tx request ≡ ok snap
unfolding take ◌=t◌ validate_ident runes is_ascii sql_clause sql_preds Parse.validate_ident
    is_letter select_list take_tx read_rows row_into insert
taken = refl

take-Reads_example :
    (clause : Text) × (args : List Value) × IsIdent tables (txt "public")
    × IsIdent tables (txt "todos")
    × All (IsIdent tables) []
    × Renders request.filter.preds clause args
    × Reads tables parse_lsn tx (Statement [] (txt "public") (txt "todos") clause) args snap
unfolding ◌=t◌
take-Reads_example = take-Reads tables parse_lsn true tx request snap taken
