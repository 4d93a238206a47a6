-- ===== src/Shape/Filter/Sql/Nulls.antt =====
-- Match against the database's reading of the same filter, where a comparison with NULL is neither
-- true nor false.
use tether.Prelude.{
  Text, Unicode, ◌⊎◌, Bool, true, false, not, ◌||◌, if◌then◌else◌, List, [], ◌∷◌, Option, none,
  some, ok, ◌≡◌, refl, ◌↔◌, All, arith, Bool-cases, inl, inr,
}
use tether.Shape.Filter.Equal.{values_equal}
use tether.Shape.Filter.Matching.{match_row_iff}
use tether.Shape.Filter.Sql.{sql_clause}
use tether.Shape.Filter.Sql.Parts.{Renders, sql_clause-Renders}
use tether.Shape.Filter.{
  Filter, Predicate, PredOp, op_eq, op_ne, op_is_null, op_is_not_null, bad_op, is_nil, match_pred,
  match_row, pred_test,
}
use tether.Value.{
  Value, nil, int, int32, int64, float64, string, bytes, other, Runtime, Row, column,
}

-- A truth value of SQL; `none` is unknown.
abbrev pub Truth : Type 0
Truth = Option Bool

-- The database's equality of two values that are not NULL is a parameter.
module _ (go : Runtime) (db_equal : Value → Value → Bool) where
  -- `a = b`, unknown if one of them is NULL.
  unfoldable pub sql_equal : Value → Value → Truth
  sql_equal a b = if is_nil a || is_nil b then none else some (db_equal a b)

  sql_not : Truth → Truth
  sql_not none = none
  sql_not (some b) = some (not b)

  -- The truth of a predicate's part of the clause on a value.
  unfoldable pub sql_truth : PredOp → Value → Value → Truth
  unfolding sql_not
  sql_truth op_eq a w = sql_equal a w
  sql_truth op_ne a w = sql_not (sql_equal a w)
  sql_truth op_is_null a w = some (is_nil a)
  sql_truth op_is_not_null a w = some (not (is_nil a))
  sql_truth bad_op a w = none

  -- No comparison that the two sides decide differently meets NULL, neither the argument of `=` or
  -- `!=` nor the column of `!=`; and on the two values of a comparison that are not NULL the database's
  -- equality is that of the shape.
  abbrev pub Compares : PredOp → Value → Value → Type 0
  Compares op_eq a w =
      (is_nil w ≡ false) × ((is_nil a ≡ true) ⊎ (db_equal a w ≡ values_equal go a w))
  Compares op_ne a w =
      (is_nil a ≡ false) × (is_nil w ≡ false) × (db_equal a w ≡ values_equal go a w)
  Compares op_is_null a w = Unit
  Compares op_is_not_null a w = Unit
  Compares bad_op a w = ⊥

  -- The row has the column of the predicate, and the condition is true of it.
  abbrev pub Selects : Row → Predicate → Type 0
  Selects r p =
      (a : Value) × (column p.column (some r) ≡ some a) × (sql_truth p.op a p.value ≡ some true)

  abbrev pub Has : Row → Predicate → Type 0
  Has r p = (a : Value) × (column p.column (some r) ≡ some a) × Compares p.op a p.value

  values_equal_nil : (w : Value) → is_nil w ≡ false → values_equal go nil w ≡ false
  unfolding values_equal is_nil
  values_equal_nil nil h = cc
  values_equal_nil (int n) h = refl
  values_equal_nil (int32 n) h = refl
  values_equal_nil (int64 n) h = refl
  values_equal_nil (float64 x) h = refl
  values_equal_nil (string s) h = refl
  values_equal_nil (bytes b) h = refl
  values_equal_nil (other x) h = refl

  nil_of : (a : Value) → is_nil a ≡ true → a ≡ nil
  unfolding is_nil
  nil_of nil h = refl
  nil_of (int n) h = cc
  nil_of (int32 n) h = cc
  nil_of (int64 n) h = cc
  nil_of (float64 x) h = cc
  nil_of (string s) h = cc
  nil_of (bytes b) h = cc
  nil_of (other x) h = cc

  truth_iff :
      (op : PredOp) (a w : Value)
      → Compares op a w
      → (pred_test go op (some a) w ≡ ok true) ↔ (sql_truth op a w ≡ some true)
  unfolding pred_test sql_truth sql_equal
  truth_iff op_is_null a w h = (λ e. ground arith, λ e. ground arith)
  truth_iff op_is_not_null a w h = (λ e. ground arith, λ e. ground arith)
  truth_iff bad_op a w h = absurd h
  truth_iff op_ne a w h = (λ e. ground arith, λ e. ground arith)
  truth_iff op_eq a w (v, inl null) =
      let n = nil_of a null in rw n (λ e. ground (arith, values_equal_nil w v), λ e. ground arith)
  truth_iff op_eq a w (v, inr same) = elim (Bool-cases (is_nil a)) [
    | inr there ↦ (λ e. ground arith, λ e. ground arith)
    | inl null ↦
        let n = nil_of a null in rw n (λ e. ground (arith, values_equal_nil w v), λ e. ground arith)
  ]

  Selects-iff :
      (ps : List Predicate) (r : Row)
      → All (Has r) ps
      → All (λ p. match_pred go p (some r) ≡ ok true) ps ↔ All (Selects r) ps
  unfolding match_pred
  Selects-iff [] r h = (λ _. tt, λ _. tt)
  Selects-iff (p ∷ ps) r ((a, there, c), h) =
      let (down, up) = Selects-iff ps r h in
      let (to, back) = truth_iff p.op a p.value c in
      (
        (λ (m, ms). ((a, there, to (rw there at m)), down ms)),
        (λ ((b, there', t), ss). let e : b ≡ a = cc in (rw there (back (rw e at t)), up ss)),
      )

  -- The snapshot and the live stream agree on a row that has the filter's columns, as long as no
  -- comparison meets NULL (the argument of `=` and `!=`, and the column of `!=`) and the database's
  -- equality of the values compared is that of the shape: what SQLClause returns is one part for each
  -- predicate, joined by AND, that names its column and has its operator, and whose placeholder
  -- stands for its argument; and Match admits the row exactly if each of these conditions, under
  -- SQL's three truth values, is true of it.
  pub match_row-Selects :
      (u : Unicode) (f : Filter) (sql : Text) (args : List Value) (r : Row)
      → sql_clause u f ≡ ok (sql, args)
      → All (Has r) f.preds
      → Renders f.preds sql args × ((match_row go f (some r) ≡ ok true) ↔ All (Selects r) f.preds)
  match_row-Selects u f sql args r e h =
      let (down, up) = match_row_iff go f (some r) in
      let (to, back) = Selects-iff f.preds r h in
      (sql_clause-Renders u f sql args e, (λ m. to (down m).1, λ s. up ((λ e. cc), back s)))

  -- They disagree on every row whose column of a `!=` is NULL: Match admits by that predicate, and
  -- the database does not select by it.
  pub null_diverges :
      (p : Predicate) (r : Row)
      → p.op ≡ op_ne
      → is_nil p.value ≡ false
      → column p.column (some r) ≡ some nil
      → (match_pred go p (some r) ≡ ok true) × ¬ Selects r p
  unfolding match_pred pred_test sql_truth sql_equal is_nil
  null_diverges p r e v there = (
    rw (e, there) (ground (arith, values_equal_nil p.value v)),
    λ (a, there', t).
        let same : a ≡ nil = cc in
        let t' : sql_truth op_ne nil p.value ≡ some true = rw (e, same) at t in cc,
  )
