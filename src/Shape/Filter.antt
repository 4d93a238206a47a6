-- ===== src/Shape/Filter.antt =====
-- internal/shape/filter.go: the server-built row predicate, and whether a row satisfies it.
pub mod Equal
pub mod Matching
pub mod Parse
pub mod Sql
mod Tests
mod ParseTests
use tether.Prelude.{
  Bool, true, false, not, List, [], ◌∷◌, Option, none, some, Text, Result, ok, err, ◌>>=◌,
  if◌then◌else◌,
}
use tether.Shape.Error.{Error, unknown_pred_op}
use tether.Value.{Value, nil, Runtime, Row, column}
use Equal.{values_equal}

-- `predOp` is an int: the four constants, and any other value of the type.
pub data PredOp : Type 0 where
  op_eq op_ne op_is_null op_is_not_null bad_op : PredOp

pub record Predicate : Type 0 where
  pub column : Text
  pub op : PredOp
  pub value : Value

pub record Filter : Type 0 where
  pub preds : List Predicate

-- `val == nil` of an `any`
unfoldable pub is_nil : Value → Bool
is_nil nil = true
is_nil _ = false

null_test : Option Value → Bool
unfolding is_nil
null_test none = true
null_test (some v) = is_nil v

equal_test : Runtime → Option Value → Value → Bool
equal_test go none w = false
equal_test go (some v) w = values_equal go v w

differ_test : Runtime → Option Value → Value → Bool
differ_test go none w = false
differ_test go (some v) w = not (values_equal go v w)

pred_test : Runtime → PredOp → Option Value → Value → Result Error Bool
unfolding null_test equal_test differ_test
pred_test go op_is_null val w = ok (null_test val)
pred_test go op_is_not_null val w = ok (not (null_test val))
pred_test go op_eq val w = ok (equal_test go val w)
pred_test go op_ne val w = ok (differ_test go val w)
pred_test go bad_op val w = err unknown_pred_op

-- predicate.match
unfoldable pub match_pred : Runtime → Predicate → Option Row → Result Error Bool
unfolding pred_test column
match_pred go p row = pred_test go p.op (column p.column row) p.value

-- The loop of Match: it stops at the first error and at the first predicate that fails.
unfoldable pub match_preds : Runtime → List Predicate → Option Row → Result Error Bool
match_preds go [] row = ok true
match_preds go (p ∷ ps) row =
    let rest = match_preds go ps row in
    do holds ← match_pred go p row; if holds then rest else ok false

-- Match: a nil row matches no filter.
unfoldable pub match_row : Runtime → Filter → Option Row → Result Error Bool
unfolding match_preds
match_row go f none = ok false
match_row go f (some r) = match_preds go f.preds (some r)
