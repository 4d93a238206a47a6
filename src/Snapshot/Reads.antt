-- ===== src/Snapshot/Reads.antt =====
-- What Take returns, it has read from one committed transaction.
use tether.Prelude.{
  All, [], Bool, true, false, not, List, Option, none, some, Text, txt, ◌=t◌, Result, ok, err,
  map_err, bind_ok, if◌then◌else◌, ◌≡◌, refl, Unicode,
}
use tether.Shape.Filter.Sql.{sql_clause}
use tether.Shape.Filter.Sql.Parts.{Renders, sql_clause-Renders}
use tether.Snapshot.Statement.{
  IsIdent, validate_ident-IsIdent, Columns, select_list-Columns, Statement, AllHold,
  read_rows-AllHold,
}
use tether.Snapshot.{
  Error, filter_failed, no_table, nil_pool, begin_failed, lsn_failed, parse_lsn_failed,
  query_failed, rows_failed, commit_failed, Request, Snap, Answer, Transaction, validate_ident,
  select_list, select_sql, read_rows, check, expect, take_tx, take,
}
use tether.Value.{Value}
use tether.Wal.Change.{Lsn}

check_ok : (b : Bool) (e : Error) (a : Bool) → check b e ≡ ok a → b ≡ true
unfolding check
check_ok true e a h = refl
check_ok false e a h = cc

expect_ok {ℓ} : {A : Type ℓ} (o : Option A) (e : Error) (a : A) → expect o e ≡ ok a → o ≡ some a
unfolding expect
expect_ok none e a h = cc
expect_ok (some b) e a h = cc

map_err_ok : {E A : Type 0} (f : E → Error) (r : Result E A) (a : A) → map_err f r ≡ ok a → r ≡ ok a
map_err_ok f (ok b) a h = cc
map_err_ok f (err x) a h = cc

module _ (u : Unicode) (parse_lsn : Text → Option Lsn) where
  -- The LSN and the rows are what one transaction that commits answers: the LSN first, then the rows
  -- of one statement, each with its values under the fields' names and nothing else.
  pub record Reads (tx : Transaction) (sql : Text) (args : List Value) (snap : Snap) : Type 0 where
    pub begins : tx.begins ≡ true
    pub text : Text
    pub at : tx.lsn ≡ some text
    pub lsn : parse_lsn text ≡ some snap.lsn
    pub answer : Answer
    pub asked : tx.query sql args ≡ some answer
    pub rows : AllHold answer.fields answer.values snap.rows
    pub ends : answer.ends ≡ true
    pub commits : tx.commits ≡ true

  tx-Reads :
      (tx : Transaction) (sql : Text) (args : List Value) (snap : Snap)
      → take_tx u parse_lsn tx sql args ≡ ok snap
      → Reads tx sql args snap
  unfolding take_tx
  tx-Reads tx sql args snap e =
      let (a0, b0, e0) = bind_ok (check tx.begins begin_failed) _ e in
      let (text, b1, e1) = bind_ok (expect tx.lsn lsn_failed) _ e0 in
      let (lsn, b2, e2) = bind_ok (expect (parse_lsn text) (parse_lsn_failed text)) _ e1 in
      let (answer, b3, e3) = bind_ok (expect (tx.query sql args) query_failed) _ e2 in
      let (rows, b4, e4) = bind_ok (read_rows answer.fields answer.values) _ e3 in
      let (a5, b5, e5) = bind_ok (check answer.ends rows_failed) _ e4 in
      let (a6, b6, e6) = bind_ok (check tx.commits commit_failed) _ e5 in
      let same : record { lsn = lsn; rows = rows } ≡ snap = cc in
      rw (← same) (record {
        begins = check_ok tx.begins begin_failed a0 b0;
        text = text;
        at = expect_ok tx.lsn lsn_failed text b1;
        lsn = expect_ok (parse_lsn text) (parse_lsn_failed text) lsn b2;
        answer = answer;
        asked = expect_ok (tx.query sql args) query_failed answer b3;
        rows = read_rows-AllHold answer.fields answer.values rows b4;
        ends = check_ok answer.ends rows_failed a5 b5;
        commits = check_ok tx.commits commit_failed a6 b6;
      })

  renamed :
      (tx : Transaction) (cols schema schema' table table' clause : Text) (columns : List Text)
      (args : List Value) (snap : Snap)
      → cols ≡ Columns columns
      → schema ≡ schema'
      → table ≡ table'
      → take_tx u parse_lsn tx (select_sql cols schema table clause) args ≡ ok snap
      → take_tx u parse_lsn tx (Statement columns schema' table' clause) args ≡ ok snap
  unfolding select_sql
  renamed tx cols schema schema' table table' clause columns args snap ec es et e =
      rw (ec, es, et) at e

  -- Take returns a snapshot only of a schema (public, where it is given none), a table and columns
  -- whose names are ASCII letters, digits and underscores, not beginning with a digit. Its LSN and all
  -- its rows are answers of one transaction that committed, to one statement: SELECT of the columns in
  -- quotes (or of all, where it is given none) FROM the quoted schema and table WHERE a clause holds,
  -- with arguments, that has for each predicate of the filter its quoted column and its condition,
  -- joined by AND. Each row has exactly the answer's values under the names of its fields.
  pub take-Reads :
      (has_pool : Bool) (tx : Transaction) (req : Request) (snap : Snap)
      → take u parse_lsn has_pool tx req ≡ ok snap
      → let schema = if req.schema =t [] then txt "public" else req.schema in
        (clause : Text) × (args : List Value) × IsIdent u schema
        × IsIdent u req.table
        × All (IsIdent u) req.columns
        × Renders req.filter.preds clause args
        × Reads tx (Statement req.columns schema req.table clause) args snap
  unfolding take
  take-Reads has_pool tx req snap e =
      let sch = if req.schema =t [] then txt "public" else req.schema in
      let (a0, b0, e0) = bind_ok (check has_pool nil_pool) _ e in
      let (a1, b1, e1) = bind_ok (check (not (req.table =t [])) no_table) _ e0 in
      let (schema, b2, e2) = bind_ok (validate_ident u sch) _ e1 in
      let (table, b3, e3) = bind_ok (validate_ident u req.table) _ e2 in
      let (clause, b4, e4) = bind_ok (map_err filter_failed (sql_clause u req.filter)) _ e3 in
      let (cols, b5, e5) = bind_ok (select_list u req.columns) _ e4 in
      let (es, schema_ident) = validate_ident-IsIdent u sch schema b2 in
      let (et, table_ident) = validate_ident-IsIdent u req.table table b3 in
      let (ec, column_idents) = select_list-Columns u req.columns cols b5 in
      let made = map_err_ok filter_failed (sql_clause u req.filter) clause b4 in
      (
        clause.0,
        clause.1,
        schema_ident,
        table_ident,
        column_idents,
        sql_clause-Renders u req.filter clause.0 clause.1 made,
        tx-Reads tx (Statement req.columns sch req.table clause.0) clause.1 snap (
            renamed tx cols schema sch table req.table clause.0 req.columns clause.1 snap ec es et
              e5),
      )
