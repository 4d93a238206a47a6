-- ===== src/Shape/Filter/Sql.antt =====
-- SQLClause of internal/shape/filter.go: the text and the arguments with which a snapshot asks the
-- database for the rows of a filter. quoteIdent stands in three files of the repository.
pub mod Quote
pub mod Parts
pub mod Nulls
pub mod Render
use tether.Prelude.{
  ℕ, suc, Bool, List, [], ◌∷◌, ◌++◌, Text, txt, Result, ok, err, ◌>>=◌, if◌then◌else◌, Unicode,
  replace_byte,
}
use tether.Shape.Error.{Error, unknown_pred_op, empty_filter}
use tether.Shape.Filter.Parse.{validate_ident}
use tether.Shape.Filter.{
  Filter, Predicate, PredOp, op_eq, op_ne, op_is_null, op_is_not_null, bad_op,
}
use tether.Value.{Value, decimal, join}

unfoldable pub quote_ident : Text → Text
quote_ident ident = b'"' ∷ (replace_byte b'"' (b'"' ∷ b'"' ∷ []) ident ++ b'"' ∷ [])

-- $n
unfoldable pub placeholder : ℕ → Text
placeholder n = b'$' ∷ decimal n

-- The parts and arguments so far, and the number of the next placeholder.
abbrev pub Clause : Type 0
Clause = List Text × List Value

compare_part : Text → Text → Value → ℕ → (ℕ → Result Error Clause) → Result Error Clause
compare_part col op v n rest = do
  (parts, args) ← rest (suc n)
  ok ((col ++ (op ++ placeholder n)) ∷ parts, v ∷ args)

null_part : Text → ℕ → (ℕ → Result Error Clause) → Result Error Clause
null_part part n rest = do (parts, args) ← rest n; ok (part ∷ parts, args)

-- The switch on the operator.
sql_pred : Predicate → Text → PredOp → ℕ → (ℕ → Result Error Clause) → Result Error Clause
unfolding compare_part null_part
sql_pred p col op_eq n rest = compare_part col (txt " = ") p.value n rest
sql_pred p col op_ne n rest = compare_part col (txt " <> ") p.value n rest
sql_pred p col op_is_null n rest = null_part (col ++ txt " IS NULL") n rest
sql_pred p col op_is_not_null n rest = null_part (col ++ txt " IS NOT NULL") n rest
sql_pred p col bad_op n rest = err unknown_pred_op

module _ (u : Unicode) where
  -- The loop, from the placeholder n on.
  unfoldable pub sql_preds : List Predicate → ℕ → Result Error Clause
  unfolding sql_pred
  sql_preds [] n = ok ([], [])
  sql_preds (p ∷ ps) n = do
    name ← validate_ident u p.column
    sql_pred p (quote_ident name) p.op n (sql_preds ps)

  -- SQLClause
  unfoldable pub sql_clause : Filter → Result Error (Text × List Value)
  sql_clause f = elim f.preds [
    | [] ↦ err empty_filter
    | p ∷ ps ↦ do (parts, args) ← sql_preds (p ∷ ps) 1; ok (join (txt " AND ") parts, args)
  ]
