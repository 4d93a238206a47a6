-- ===== src/Shape/Filter/Tests.antt =====
-- Filters on concrete rows.
use tether.Prelude.{
  Bool, true, false, [], ◌∷◌, Option, none, some, txt, pos, ok, ◌≡◌, refl, ◌≢◌, ◌↔◌, All, ◌=t◌,
}
use tether.Shape.Filter.{Filter, op_eq, op_is_null, match_pred, match_row}
use tether.Shape.Filter.Equal.{values_equal}
use tether.Shape.Filter.Matching.{match_row_iff, match_row_total}
use tether.Value.{Runtime, Row, nil, int, int64, bytes, sprint}

abbrev go : Runtime
go = record { sprint_float = λ x. []; sprint_other = λ x. []; round = λ z. 0 }

abbrev open_todos : Filter
open_todos = record {
  preds =
      record { column = txt "org"; op = op_eq; value = int (pos 4) }
      ∷ record { column = txt "deleted"; op = op_is_null; value = nil }
      ∷ [];
}

abbrev todo : Row
todo = (txt "org", int64 (pos 4)) ∷ (txt "deleted", nil) ∷ []

matches_todo : match_row go open_todos (some todo) ≡ ok true
unfolding match_row match_pred ◌=t◌ values_equal
matches_todo = refl

match_row_iff_example : (match_row go open_todos (some todo) ≡ ok true) ↔ (
    (◌≢◌ {A = Option Row} (some todo) none)
    × All (λ p. match_pred go p (some todo) ≡ ok true) open_todos.preds)
match_row_iff_example = match_row_iff go open_todos (some todo)

match_row_total_example : (b : Bool) × (match_row go open_todos (some todo) ≡ ok b)
match_row_total_example = match_row_total go open_todos (some todo) ((λ e. cc), ((λ e. cc), tt))

-- Two slices of the same bytes are not equal: the right one is printed as [97 98].
bytes_differ : values_equal go (bytes (97 ∷ 98 ∷ [])) (bytes (97 ∷ 98 ∷ [])) ≡ false
unfolding values_equal ◌=t◌ sprint
bytes_differ = refl
