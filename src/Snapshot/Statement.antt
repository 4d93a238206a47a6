-- ===== src/Snapshot/Statement.antt =====
-- The statement and the rows of a snapshot, described apart from the code that makes them.
use tether.Prelude.{
  ℕ, ◌≤◌, leb, Bool, true, false, ◌&&◌, List, [], ◌∷◌, ◌++◌, Option, none, some, Text, txt, ◌=t◌,
  ok, bind_ok, if◌then◌else◌, lookup, insert, lookup-insert, Unicode, runes, map, ◌≡◌, ◌≢◌, ◌⊎◌,
  inl, inr, refl, ◌∙◌, All, Bool-cases, arith,
}
use tether.Shape.Filter.Sql.{quote_ident}
use tether.Snapshot.{
  ident_rune, ident_runes, validate_ident, quote_columns, select_list, row_into, read_rows,
}
use tether.Value.{Value, Row, join}

-- A letter of ASCII or an underscore; and digits behind the first.
abbrev pub IsStart : ℕ → Type 0
IsStart r = (b'a' ≤ r) × (r ≤ b'z') ⊎ (b'A' ≤ r) × (r ≤ b'Z') ⊎ (r ≡ b'_')

abbrev pub IsPart : ℕ → Type 0
IsPart r = IsStart r ⊎ (b'0' ≤ r) × (r ≤ b'9')

abbrev Starts : List ℕ → Type 0
Starts [] = Unit
Starts (r ∷ rs) = IsStart r

abbrev pub IsIdent : Unicode → Text → Type 0
IsIdent u name = (name ≢ []) × Starts (runes u name) × All IsPart (runes u name)

ident_rune-IsStart : (r : ℕ) → ident_rune true r ≡ true → IsStart r
unfolding ident_rune
ident_rune-IsStart r e = elim (Bool-cases (leb b'a' r && leb r b'z')) [
  | inl lower ↦ inl (ground arith, ground arith)
  | inr a ↦ elim (Bool-cases (leb b'A' r && leb r b'Z')) [
    | inl upper ↦ inr (inl (ground arith, ground arith))
    | inr b ↦ inr (inr (ground arith))
  ]
]

ident_rune-IsPart : (first : Bool) (r : ℕ) → ident_rune first r ≡ true → IsPart r
ident_rune-IsPart true r e = inl (ident_rune-IsStart r e)
ident_rune-IsPart false r e = elim (Bool-cases (ident_rune true r)) [
  | inl s ↦ inl (ident_rune-IsStart r s)
  | inr n ↦ inr (unfold ident_rune in ground arith, unfold ident_rune in ground arith)
]

ident_runes-IsPart : (first : Bool) (rs : List ℕ) → ident_runes first rs ≡ true → All IsPart rs
unfolding ident_runes
ident_runes-IsPart first [] e = tt
ident_runes-IsPart first (r ∷ rs) e =
    (ident_rune-IsPart first r (ground arith), ident_runes-IsPart false rs (ground arith))

ident_runes-Starts : (rs : List ℕ) → ident_runes true rs ≡ true → Starts rs
unfolding ident_runes
ident_runes-Starts [] e = tt
ident_runes-Starts (r ∷ rs) e = ident_rune-IsStart r (ground arith)

pub validate_ident-IsIdent :
    (u : Unicode) (name out : Text) → validate_ident u name ≡ ok out → (out ≡ name) × IsIdent u name
unfolding validate_ident ◌=t◌
validate_ident-IsIdent u [] out e = absurd (ground arith)
validate_ident-IsIdent u (c ∷ name) out e =
    let good : ident_runes true (runes u (c ∷ name)) ≡ true = ground arith in
    (
      ground arith,
      (
        λ e'. cc,
        ident_runes-Starts (runes u (c ∷ name)) good,
        ident_runes-IsPart true (runes u (c ∷ name)) good,
      ),
    )

-- `*`, or the columns in quotes.
abbrev pub Columns : List Text → Text
Columns [] = txt "*"
Columns (c ∷ cs) = join (txt ", ") (map quote_ident (c ∷ cs))

quote_columns-IsIdent :
    (u : Unicode) (cs out : List Text)
    → quote_columns u cs ≡ ok out
    → (out ≡ map quote_ident cs) × All (IsIdent u) cs
unfolding quote_columns
quote_columns-IsIdent u [] out e = (cc, tt)
quote_columns-IsIdent u (c ∷ cs) out e =
    let (name, v, e') = bind_ok (validate_ident u c) _ {b = out} e in
    let (names, w, e'') = bind_ok (quote_columns u cs) _ {b = out} e' in
    let (same, ident) = validate_ident-IsIdent u c name v in
    let (rest, idents) = quote_columns-IsIdent u cs names w in
    let o : quote_ident name ∷ names ≡ out = cc in (rw (← o, same, rest) refl, (ident, idents))

pub select_list-Columns :
    (u : Unicode) (cs : List Text) (out : Text)
    → select_list u cs ≡ ok out
    → (out ≡ Columns cs) × All (IsIdent u) cs
unfolding select_list
select_list-Columns u [] out e = (cc, tt)
select_list-Columns u (c ∷ cs) out e =
    let (names, w, e') = bind_ok (quote_columns u (c ∷ cs)) _ {b = out} e in
    let (rest, idents) = quote_columns-IsIdent u (c ∷ cs) names w in
    let o : join (txt ", ") names ≡ out = cc in (rw (← o, rest) refl, idents)

-- The statement: the columns of the table, of its schema, under the clause.
abbrev pub Statement : List Text → Text → Text → Text → Text
Statement columns schema table clause =
    txt "SELECT "
    ++ (Columns columns
        ++ (txt " FROM "
            ++ (quote_ident schema
                ++ (txt "." ++ (quote_ident table ++ (txt " WHERE " ++ clause))))))

-- The value of a field in a row of the answer: the last one under its name.
unfoldable pub value_of : Text → List Text → List Value → Option Value
value_of name [] vs = none
value_of name (f ∷ fs) [] = none
value_of name (f ∷ fs) (v ∷ vs) =
    let later = value_of name fs vs in
    elim later [ some x ↦ some x | none ↦ if f =t name then some v else none ]

-- A row that holds the values of an answer's row, and no other column.
abbrev pub Holds : List Text → List Value → Row → Type 0
Holds fs vs row = (name : Text) → lookup name row ≡ value_of name fs vs

abbrev pub AllHold : List Text → List (Option (List Value)) → List Row → Type 0
AllHold fs [] [] = Unit
AllHold fs [] (row ∷ rows) = ⊥
AllHold fs (v ∷ vs) [] = ⊥
AllHold fs (none ∷ vs) (row ∷ rows) = ⊥
AllHold fs (some v ∷ vs) (row ∷ rows) = Holds fs v row × AllHold fs vs rows

row_into-value_of :
    (name : Text) (fs : List Text) (vs : List Value) (row : Row)
    → lookup name (row_into fs vs row)
      ≡ elim (value_of name fs vs) [ some x ↦ some x | none ↦ lookup name row ]
unfolding row_into value_of
row_into-value_of name [] vs row = refl
row_into-value_of name (f ∷ fs) [] row = refl
row_into-value_of name (f ∷ fs) (v ∷ vs) row =
    ground (arith, row_into-value_of name fs vs (insert f v row), lookup-insert f name v row)

same_value :
    (name : Text) (o : Option Value)
    → elim o [ some x ↦ some x | none ↦ lookup {V = Value} name [] ] ≡ o
unfolding lookup
same_value name none = refl
same_value name (some x) = refl

pub read_rows-AllHold :
    (fs : List Text) (vs : List (Option (List Value))) (rows : List Row)
    → read_rows fs vs ≡ ok rows
    → AllHold fs vs rows
unfolding read_rows
read_rows-AllHold fs [] [] e = tt
read_rows-AllHold fs [] (row ∷ rows) e = cc
read_rows-AllHold fs (none ∷ vs) rows e = absurd (ground arith)
read_rows-AllHold fs (some v ∷ vs) rows e =
    let (more, w, e') = bind_ok (read_rows fs vs) _ {b = rows} e in
    let o : row_into fs v [] ∷ more ≡ rows = cc in
    rw (← o) (
      λ name. row_into-value_of name fs v [] ∙ same_value name (value_of name fs v),
      read_rows-AllHold fs vs more w,
    )
