-- ===== src/Snapshot.antt =====
-- internal/snapshot/take.go: a filtered read of a table in one transaction, at a known LSN.
pub mod Statement
pub mod Reads
mod Tests
use tether.Prelude.{
  ℕ, zero, suc, leb, ◌==◌, Bool, true, false, not, ◌&&◌, ◌||◌, List, [], ◌∷◌, ◌++◌, Option, none,
  some, Text, txt, ◌=t◌, Result, ok, err, ◌>>=◌, map_err, if◌then◌else◌, insert, Unicode, runes,
}
use tether.Shape.Error.{Error as FilterError}
use tether.Shape.Filter.{Filter}
use tether.Shape.Filter.Sql.{quote_ident, sql_clause}
use tether.Value.{Value, Row, join}
use tether.Wal.Change.{Lsn}

pub data Error : Type 0 where
  nil_pool no_table empty_ident : Error
  invalid_ident : Text → Error
  filter_failed : FilterError → Error
  begin_failed lsn_failed : Error
  parse_lsn_failed : Text → Error
  query_failed values_failed rows_failed commit_failed : Error

-- Request
pub record Request : Type 0 where
  pub schema : Text
  pub table : Text
  pub columns : List Text
  pub filter : Filter

-- Result
pub record Snap : Type 0 where
  pub lsn : Lsn
  pub rows : List Row

-- The test of one rune in validateIdent; `first` says that it stands at position 0.
unfoldable pub ident_rune : Bool → ℕ → Bool
ident_rune first r =
    leb b'a' r && leb r b'z'
    || leb b'A' r && leb r b'Z'
    || r == b'_'
    || not first && (leb b'0' r && leb r b'9')

unfoldable pub ident_runes : Bool → List ℕ → Bool
unfolding ident_rune
ident_runes first [] = true
ident_runes first (r ∷ rs) = ident_rune first r && ident_runes false rs

-- validateIdent, with the name that it lets pass
unfoldable pub validate_ident : Unicode → Text → Result Error Text
unfolding ident_runes
validate_ident u name =
    if name =t []
    then err empty_ident
    else if ident_runes true (runes u name)
    then ok name
    else err (invalid_ident name)

-- The loop over the columns.
unfoldable pub quote_columns : Unicode → List Text → Result Error (List Text)
quote_columns u [] = ok []
quote_columns u (c ∷ cs) = do
  name ← validate_ident u c
  names ← quote_columns u cs
  ok (quote_ident name ∷ names)

unfoldable pub select_list : Unicode → List Text → Result Error Text
select_list u [] = ok (txt "*")
select_list u (c ∷ cs) = do names ← quote_columns u (c ∷ cs); ok (join (txt ", ") names)

unfoldable pub select_sql : Text → Text → Text → Text → Text
select_sql cols schema table clause =
    txt "SELECT "
    ++ (cols
        ++ (txt " FROM "
            ++ (quote_ident schema
                ++ (txt "." ++ (quote_ident table ++ (txt " WHERE " ++ clause))))))

-- The rows that a query answers: the fields' names, the values of each row (`none` where reading
-- them fails), and whether the rows end without an error.
pub record Answer : Type 0 where
  pub fields : List Text
  pub values : List (Option (List Value))
  pub ends : Bool

-- The database in one transaction: whether it begins, the text of its LSN, the answer to a statement
-- with arguments, and whether it commits.
pub record Transaction : Type 0 where
  pub begins : Bool
  pub lsn : Option Text
  pub query : Text → List Value → Option Answer
  pub commits : Bool

-- The map of one row: a name that comes twice keeps its last value.
unfoldable pub row_into : List Text → List Value → Row → Row
row_into [] vs row = row
row_into (f ∷ fs) [] row = row
row_into (f ∷ fs) (v ∷ vs) row = row_into fs vs (insert f v row)

-- The loop over the rows.
unfoldable pub read_rows : List Text → List (Option (List Value)) → Result Error (List Row)
read_rows fields [] = ok []
read_rows fields (none ∷ rest) = err values_failed
read_rows fields (some vs ∷ rest) = do
  rows ← read_rows fields rest
  ok (row_into fields vs [] ∷ rows)

unfoldable pub check : Bool → Error → Result Error Bool
check b e = if b then ok true else err e

unfoldable pub expect {ℓ} : {A : Type ℓ} → Option A → Error → Result Error A
expect none e = err e
expect (some a) e = ok a

module _ (u : Unicode) (parse_lsn : Text → Option Lsn) where
  -- The transaction of Take.
  unfoldable pub take_tx : Transaction → Text → List Value → Result Error Snap
  unfolding check expect
  take_tx tx sql args = do
    begun ← check tx.begins begin_failed
    text ← expect tx.lsn lsn_failed
    lsn ← expect (parse_lsn text) (parse_lsn_failed text)
    answer ← expect (tx.query sql args) query_failed
    rows ← read_rows answer.fields answer.values
    ended ← check answer.ends rows_failed
    done ← check tx.commits commit_failed
    ok (record { lsn = lsn; rows = rows })

  -- Take
  unfoldable pub take : Bool → Transaction → Request → Result Error Snap
  unfolding check
  take has_pool tx req = do
    pool ← check has_pool nil_pool
    tabled ← check (not (req.table =t [])) no_table
    schema ← validate_ident u (if req.schema =t [] then txt "public" else req.schema)
    table ← validate_ident u req.table
    clause ← map_err filter_failed (sql_clause u req.filter)
    cols ← select_list u req.columns
    take_tx tx (select_sql cols schema table clause.0) clause.1
