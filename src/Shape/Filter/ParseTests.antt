-- ===== src/Shape/Filter/ParseTests.antt =====
-- Clauses parsed, and filters rendered.
use tether.Prelude.{
  Bool, true, false, inr, ◌=z◌, replace_byte, [], ◌∷◌, ◌++◌, some, Text, txt, pos, ok, ◌≡◌, refl,
  ◌↔◌, All, ◌=t◌, Unicode, trim_space, is_ascii, trim_right, trim_left, is_space, index, to_upper,
  has_prefix, upper_byte, has_suffix, runes, is_letter, is_digit,
}
use tether.Shape.Filter.Matching.{IsBuilt}
use tether.Shape.Filter.Parse.{
  parse_where, validate_ident, split_and, split_from, cut_at, slice_to, slice_from, parse_parts,
  parse_part, drop_last, null_pred, compare_pred, parse_comparison, try_separator, check_fragment,
  ident_runes, ident_rune, or_else,
}
use tether.Shape.Filter.Parse.RoundTrip.{parse_where-show_where}
use tether.Shape.Filter.Parse.Shown.{IsPlain, show_where, show_pred, op_text}
use tether.Shape.Filter.Parse.Sound.{IsParsed, args_of}
use tether.Shape.Filter.Parse.Words.{is_word, word_byte}
use tether.Shape.Filter.Sql.{quote_ident, sql_clause, sql_preds, placeholder}
use tether.Shape.Filter.Sql.Parts.{Renders}
use tether.Shape.Filter.Equal.{values_equal}
use tether.Shape.Filter.Sql.Nulls.{Selects, match_row-Selects, null_diverges}
use tether.Shape.Filter.Sql.Quote.{read_quoted, read_quoted-quote_ident}
use tether.Shape.Filter.Sql.Render.{sql_clause-parse_where}
use tether.Shape.Filter.{Predicate, op_eq, op_ne, op_is_null, is_nil, match_pred, match_row}
use tether.Value.{Value, decimal, Runtime, Row, nil, int, int64, string, join, column}

abbrev go : Runtime
go = record { sprint_float = λ x. []; sprint_other = λ x. []; round = λ z. 0 }

abbrev tables : Unicode
tables = record {
  upper = λ s. s;
  trim = λ s. s;
  decode = λ s. s;
  letter = λ r. false;
  digit = λ r. false;
}

abbrev org_is : Predicate
org_is = record { column = txt "org_id"; op = op_eq; value = int (pos 4) }

abbrev not_deleted : Predicate
not_deleted = record { column = txt "deleted_at"; op = op_is_null; value = nil }

abbrev clause : Text
clause = txt "org_id = ? AND deleted_at IS NULL"

plain : All (IsPlain tables) (org_is ∷ not_deleted ∷ [])
unfolding is_word validate_ident word_byte ◌=t◌ runes is_ascii is_letter
plain = (
  record { word = refl; valid = refl; fits = tt },
  (record { word = refl; valid = refl; fits = refl }, tt),
)

shows : show_where (org_is ∷ not_deleted ∷ []) ≡ clause
unfolding show_where show_pred join op_text
shows = refl

parse_where-show_where_example :
    parse_where tables (show_where (org_is ∷ not_deleted ∷ [])) (int (pos 4) ∷ [])
    ≡ ok (record { preds = org_is ∷ not_deleted ∷ [] })
unfolding args_of
parse_where-show_where_example = parse_where-show_where tables org_is (not_deleted ∷ []) plain

-- A lower case `and` and two spaces are read as well.
reads_loose :
    parse_where tables (txt " org_id=?  and deleted_at is null ") (int (pos 4) ∷ [])
    ≡ ok (record { preds = org_is ∷ not_deleted ∷ [] })
unfolding parse_where ◌=t◌ trim_space is_ascii trim_right trim_left is_space split_and split_from
    index to_upper has_prefix upper_byte cut_at slice_to slice_from parse_parts parse_part
    has_suffix drop_last null_pred validate_ident compare_pred parse_comparison try_separator
    check_fragment ident_runes runes ident_rune is_letter is_digit or_else
reads_loose = refl

reads_clause :
    parse_where tables clause (int (pos 4) ∷ []) ≡ ok (record { preds = org_is ∷ not_deleted ∷ [] })
unfolding args_of show_where show_pred join op_text
reads_clause = parse_where-show_where tables org_is (not_deleted ∷ []) plain

sql_clause-parse_where_example :
    All (IsParsed tables) (org_is ∷ not_deleted ∷ [])
    × IsBuilt (record { preds = org_is ∷ not_deleted ∷ [] })
    × (args_of (org_is ∷ not_deleted ∷ []) ≡ int (pos 4) ∷ [])
    × ((sql : Text) × (sql_clause tables (record { preds = org_is ∷ not_deleted ∷ [] })
          ≡ ok (sql, int (pos 4) ∷ []))
        × Renders (org_is ∷ not_deleted ∷ []) sql (int (pos 4) ∷ []))
sql_clause-parse_where_example =
    sql_clause-parse_where tables clause (int (pos 4) ∷ [])
      (record { preds = org_is ∷ not_deleted ∷ [] }) reads_clause

read_quoted-quote_ident_example :
    (s : Text) × (quote_ident (txt "a\"b") ++ txt " = $1" ≡ b'"' ∷ s)
    × (read_quoted s ≡ some (txt "a\"b", txt " = $1"))
read_quoted-quote_ident_example = read_quoted-quote_ident (txt "a\"b") (txt " = $1") refl

abbrev todo : Row
todo = (txt "org_id", int64 (pos 4)) ∷ (txt "deleted_at", nil) ∷ []

-- The database holds the number 4, whichever integer type it is in.
abbrev db_equal : Value → Value → Bool
db_equal (int64 a) (int b) = a =z b
db_equal a b = false

abbrev rendered : Text
rendered = txt "\"org_id\" = $1 AND \"deleted_at\" IS NULL"

renders :
    sql_clause tables (record { preds = org_is ∷ not_deleted ∷ [] })
    ≡ ok (rendered, int (pos 4) ∷ [])
unfolding sql_clause sql_preds validate_ident ident_runes ident_rune runes quote_ident replace_byte
    placeholder decimal join is_ascii ◌=t◌ is_letter is_digit
renders = refl

match_row-Selects_example :
    Renders (org_is ∷ not_deleted ∷ []) rendered (int (pos 4) ∷ [])
    × ((match_row go (record { preds = org_is ∷ not_deleted ∷ [] }) (some todo) ≡ ok true)
        ↔ All (Selects go db_equal todo) (org_is ∷ not_deleted ∷ []))
unfolding ◌=t◌ is_nil column values_equal
match_row-Selects_example =
    match_row-Selects go db_equal tables (record { preds = org_is ∷ not_deleted ∷ [] }) rendered
      (int (pos 4) ∷ []) todo renders
      ((int64 (pos 4), refl, (refl, inr refl)), ((nil, refl, tt), tt))

abbrev still_here : Predicate
still_here = record { column = txt "deleted_at"; op = op_ne; value = string (txt "now") }

-- The live stream admits a todo that the snapshot leaves out.
admits_null :
    (match_pred go still_here (some todo) ≡ ok true) × ¬ Selects go db_equal todo still_here
unfolding ◌=t◌ is_nil column
admits_null = null_diverges go db_equal still_here todo refl refl refl
