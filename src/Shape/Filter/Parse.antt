-- ===== src/Shape/Filter/Parse.antt =====
-- ParseWhere of internal/shape/filter.go and what it calls. A slice expression out of range, which
-- a text that ToUpper makes longer or shorter can reach, is a panic: an error of its own here.
pub mod Sound
pub mod Words
pub mod Shown
pub mod Part
pub mod Cut
pub mod RoundTrip
use tether.Prelude.{
  ℕ, zero, suc, ◌+◌, ◌-◌, Bool, true, false, not, ◌&&◌, ◌||◌, List, [], ◌∷◌, ◌++◌, Option, none,
  some, Text, txt, ◌=t◌, Result, ok, err, ◌>>=◌, if◌then◌else◌, length, take, drop, leb, ltb, ◌==◌,
  Unicode, to_upper, trim_space, runes, is_letter, is_digit, has_suffix, index,
}
use tether.Shape.Error.{
  Error, slice_out_of_range, empty_where, not_enough_args, too_many_args, unsupported_fragment,
  empty_column, invalid_column,
}
use tether.Shape.Filter.{Filter, Predicate, PredOp, op_eq, op_ne, op_is_null, op_is_not_null}
use tether.Value.{Value, nil}

-- s[:n] and s[n:]
unfoldable pub slice_to : ℕ → Text → Result Error Text
slice_to n s = if leb n (length s) then ok (take n s) else err slice_out_of_range

unfoldable pub slice_from : ℕ → Text → Result Error Text
slice_from n s = if leb n (length s) then ok (drop n s) else err slice_out_of_range

-- s[:len(s)-n]
unfoldable pub drop_last : ℕ → Text → Result Error Text
drop_last n s = if leb n (length s) then ok (take (length s - n) s) else err slice_out_of_range

-- One round of splitAND that finds " AND " at i: the part before it, and the rest of the loop.
unfoldable pub cut_at : ℕ → Text → (Text → Result Error (List Text)) → Result Error (List Text)
cut_at i clause loop = do
  part ← slice_to i clause
  rest ← slice_from (i + 5) clause
  parts ← loop rest
  ok (part ∷ parts)

-- The loop of splitAND, on what is left of the upper case and of the clause: each round passes
-- " AND ", so as many rounds as the upper case has bytes, and one more, are enough.
unfoldable pub split_from : ℕ → Text → Text → Result Error (List Text)
split_from zero upper clause = err slice_out_of_range
split_from (suc f) upper clause = elim (index (txt " AND ") upper) [
  | none ↦ ok (clause ∷ [])
  | some i ↦ cut_at i clause (split_from f (drop (i + 5) upper))
]

module _ (u : Unicode) where
  -- The test of one rune; `first` says that it stands at position 0.
  unfoldable pub ident_rune : Bool → ℕ → Bool
  ident_rune first r = is_letter u r || r == b'_' || (not first && is_digit u r)

  -- The loop of validateIdent.
  unfoldable pub ident_runes : Bool → List ℕ → Bool
  unfolding ident_rune
  ident_runes first [] = true
  ident_runes first (r ∷ rs) = ident_rune first r && ident_runes false rs

  unfoldable pub validate_ident : Text → Result Error Text
  unfolding ident_runes
  validate_ident name =
      if name =t []
      then err empty_column
      else if ident_runes true (runes u name)
      then ok name
      else err (invalid_column name)

  -- What stands left and right of a separator.
  unfoldable pub check_fragment : PredOp → Text → Text → Text → Result Error (Text × PredOp)
  check_fragment op part col rhs =
      if rhs =t txt "?"
      then (do name ← validate_ident col; ok (name, op))
      else err (unsupported_fragment part)

  -- One candidate of parseComparison: nothing if its separator does not occur.
  unfoldable pub try_separator : Text → PredOp → Text → Option (Result Error (Text × PredOp))
  unfolding check_fragment
  try_separator sep op part = elim (index sep part) [
    | none ↦ none
    | some i ↦ some (
        check_fragment op part (trim_space u (take i part))
          (trim_space u (drop (i + length sep) part)))
  ]

  unfoldable pub or_else : {A : Type 0} → Option A → A → A
  or_else none a = a
  or_else (some b) a = b

  unfoldable pub parse_comparison : Text → Result Error (Text × PredOp)
  unfolding or_else try_separator
  parse_comparison part = or_else (try_separator (txt "!=") op_ne part) (
      or_else (try_separator (txt "<>") op_ne part)
        (or_else (try_separator (txt "=") op_eq part) (err (unsupported_fragment part))))

  unfoldable pub split_and : Text → Result Error (List Text)
  split_and clause = let upper = to_upper u clause in split_from (suc (length upper)) upper clause

  -- One round of ParseWhere's loop: the predicate and the arguments that are left.
  unfoldable pub null_pred : Text → PredOp → Result Error Predicate
  null_pred col op = do
    name ← validate_ident (trim_space u col)
    ok (record { column = name; op = op; value = nil })

  unfoldable pub compare_pred : Text × PredOp → List Value → Result Error (Predicate × List Value)
  compare_pred (col, op) [] = err not_enough_args
  compare_pred (col, op) (v ∷ args) = ok (record { column = col; op = op; value = v }, args)

  unfoldable pub parse_part : Text → List Value → Result Error (Predicate × List Value)
  unfolding null_pred compare_pred
  parse_part raw args =
      let part = trim_space u raw in
      let upper = to_upper u part in
      if has_suffix (txt " IS NOT NULL") upper
      then (do col ← drop_last 12 part; p ← null_pred col op_is_not_null; ok (p, args))
      else if has_suffix (txt " IS NULL") upper
      then (do col ← drop_last 8 part; p ← null_pred col op_is_null; ok (p, args))
      else (do c ← parse_comparison part; compare_pred c args)

  unfoldable pub parse_parts : List Text → List Value → Result Error (List Predicate)
  parse_parts [] [] = ok []
  parse_parts [] (v ∷ args) = err too_many_args
  parse_parts (part ∷ parts) args = do
    one ← parse_part part args
    preds ← parse_parts parts one.1
    ok (one.0 ∷ preds)

  -- ParseWhere
  unfoldable pub parse_where : Text → List Value → Result Error Filter
  parse_where raw args =
      let clause = trim_space u raw in
      if clause =t [] then err empty_where else (do
        parts ← split_and clause
        preds ← parse_parts parts args
        ok (record { preds = preds }))
