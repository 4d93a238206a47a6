-- ===== src/Shape/Filter/Matching.antt =====
-- What Match decides.
use tether.Prelude.{
  Bool, true, false, not, List, [], ◌∷◌, Option, none, some, Text, Result, ok, err, ◌>>=◌, All,
  if◌then◌else◌, ◌≡◌, refl, ◌↔◌, ◌≢◌,
}
use tether.Shape.Error.{Error}
use tether.Shape.Filter.{
  Filter, Predicate, PredOp, bad_op, op_eq, op_ne, op_is_null, op_is_not_null, match_pred,
  match_preds, match_row, pred_test, null_test, equal_test, differ_test,
}
use tether.Value.{Value, Runtime, Row, column}

-- Two rows with the same value, or none, at each column.
abbrev pub SameRow : Row → Row → Type 0
SameRow r s = (c : Text) → column c (some r) ≡ column c (some s)

match_preds-SameRow :
    (go : Runtime) (ps : List Predicate) (r s : Row)
    → SameRow r s
    → match_preds go ps (some r) ≡ match_preds go ps (some s)
unfolding match_preds
match_preds-SameRow go [] r s h = refl
match_preds-SameRow go (p ∷ ps) r s h =
    let e : match_pred go p (some r) ≡ match_pred go p (some s) =
      unfold match_pred in rw (h p.column) in
    rw (e, match_preds-SameRow go ps r s h)

-- A filter sees of a row only the values at its columns.
pub match_row-SameRow :
    (go : Runtime) (f : Filter) (r s : Row)
    → SameRow r s
    → match_row go f (some r) ≡ match_row go f (some s)
unfolding match_row
match_row-SameRow go f r s h = match_preds-SameRow go f.preds r s h

-- The filters that the package builds: no predicate has an unknown operator.
abbrev pub IsBuilt : Filter → Type 0
IsBuilt f = All (λ p. p.op ≢ bad_op) f.preds

op_ok :
    (go : Runtime) (op : PredOp) (val : Option Value) (w : Value)
    → op ≢ bad_op
    → (b : Bool) × (pred_test go op val w ≡ ok b)
op_ok go op_eq val w h = (equal_test go val w, unfold pred_test in refl)
op_ok go op_ne val w h = (differ_test go val w, unfold pred_test in refl)
op_ok go op_is_null val w h = (null_test val, unfold pred_test in refl)
op_ok go op_is_not_null val w h = (not (null_test val), unfold pred_test in refl)
op_ok go bad_op val w h = absurd (h refl)

match_preds_ok :
    (go : Runtime) (ps : List Predicate) (row : Option Row)
    → All (λ p. p.op ≢ bad_op) ps
    → (b : Bool) × (match_preds go ps row ≡ ok b)
match_preds_ok go [] row h = (true, unfold match_preds in refl)
match_preds_ok go (p ∷ ps) row h =
    go_on (op_ok go p.op (column p.column row) p.value h.0) (match_preds_ok go ps row h.1)
  where
    go_on :
        (b : Bool) × (pred_test go p.op (column p.column row) p.value ≡ ok b)
        → (b : Bool) × (match_preds go ps row ≡ ok b)
        → (b : Bool) × (match_preds go (p ∷ ps) row ≡ ok b)
    go_on (true, e) (b, e') = (b, unfold match_preds match_pred in rw (e, e'))
    go_on (false, e) (b, e') = (false, unfold match_preds match_pred in rw e)

preds_iff :
    (go : Runtime) (ps : List Predicate) (row : Option Row)
    → (match_preds go ps row ≡ ok true) ↔ All (λ p. match_pred go p row ≡ ok true) ps
unfolding match_preds
preds_iff go [] row = (λ _. tt, λ _. refl)
preds_iff go (p ∷ ps) row =
    let (down, up) = preds_iff go ps row in
    (λ h. split (match_pred go p row) down h, λ h. rw h.0 (up h.1))
  where
    split :
        (r : Result Error Bool)
        → ((match_preds go ps row ≡ ok true) → All (λ p. match_pred go p row ≡ ok true) ps)
        → (r >>= λ holds. if holds then match_preds go ps row else ok false) ≡ ok true
        → (r ≡ ok true) × All (λ p. match_pred go p row ≡ ok true) ps
    split (ok true) down h = (refl, down h)
    split (ok false) down h = cc
    split (err e) down h = cc

-- Match answers true exactly for a row that is not nil and satisfies every predicate.
pub match_row_iff :
    (go : Runtime) (f : Filter) (row : Option Row)
    → (match_row go f row ≡ ok true)
      ↔ ((row ≢ none) × All (λ p. match_pred go p row ≡ ok true) f.preds)
unfolding match_row
match_row_iff go f none = (λ h. cc, λ h. absurd (h.0 refl))
match_row_iff go f (some r) =
    let (down, up) = preds_iff go f.preds (some r) in ((λ h. (λ e. cc, down h)), λ h. up h.1)

-- Match of a filter that the package built never fails.
pub match_row_total :
    (go : Runtime) (f : Filter) (row : Option Row)
    → IsBuilt f
    → (b : Bool) × (match_row go f row ≡ ok b)
unfolding match_row
match_row_total go f none h = (false, refl)
match_row_total go f (some r) h = match_preds_ok go f.preds (some r) h
