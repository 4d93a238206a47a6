-- ===== src/Shape/Filter/Sql/Quote.antt =====
-- A quoted identifier, as the database reads it back.
use tether.Prelude.{
  ℕ, false, [], ◌∷◌, ◌++◌, Option, none, some, Text, ◌≡◌, refl, ap, ◌∙◌, ◌==◌, if◌then◌else◌, arith,
  replace_byte, Bool-cases, inl, inr,
}
use mathlib.Core.List.{append_assoc}
use tether.Shape.Filter.Sql.{quote_ident}

-- PostgreSQL's reading behind the opening quote: two quotes are one quote of the name, and a single
-- quote ends it. The name, and what follows the identifier.
more : ℕ → Option (Text × Text) → Option (Text × Text)
more c none = none
more c (some (name, rest)) = some (c ∷ name, rest)

unfoldable pub read_quoted : Text → Option (Text × Text)
unfolding more
read_quoted [] = none
read_quoted (c ∷ []) = if c == b'"' then some ([], []) else none
read_quoted (c ∷ d ∷ s) =
    let pair = more b'"' (read_quoted s) in
    let next = more c (read_quoted (d ∷ s)) in
    if c == b'"' then (if d == b'"' then pair else some ([], d ∷ s)) else next

-- A text that does not go on with a quote.
abbrev pub Ends : Text → Type 0
Ends [] = Unit
Ends (c ∷ s) = (c == b'"') ≡ false

read_other : (c : ℕ) (s : Text) → (c == b'"') ≡ false → read_quoted (c ∷ s) ≡ more c (read_quoted s)
unfolding read_quoted
read_other c [] e = rw e
read_other c (d ∷ s) e = rw e

read_body :
    (name rest : Text)
    → Ends rest
    → read_quoted (replace_byte b'"' (b'"' ∷ b'"' ∷ []) name ++ (b'"' ∷ rest)) ≡ some (name, rest)
unfolding read_quoted replace_byte
read_body [] [] h = refl
read_body [] (c ∷ rest) h = rw h refl
read_body (c ∷ name) rest h = elim (Bool-cases (c == b'"')) [
  | inl same ↦ let e : c ≡ b'"' = ground arith in rw e (rw (read_body name rest h))
  | inr other ↦ rw other (read_other c _ other ∙ ap (more c) (read_body name rest h))
]

-- The database reads a quoted identifier, if no quote follows it, back as the name, whatever bytes
-- the name has, quotes included, and goes on behind it: no name breaks out of its quotes.
pub read_quoted-quote_ident :
    (name rest : Text)
    → Ends rest
    → (s : Text) × (quote_ident name ++ rest ≡ b'"' ∷ s) × (read_quoted s ≡ some (name, rest))
unfolding quote_ident
read_quoted-quote_ident name rest h = (
  _,
  ap (λ s. b'"' ∷ s) (append_assoc (replace_byte b'"' (b'"' ∷ b'"' ∷ []) name) (b'"' ∷ []) rest),
  read_body name rest h,
)
