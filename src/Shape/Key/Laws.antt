-- ===== src/Shape/Key/Laws.antt =====
-- Lookups in a patched row, and what a key reads of its row.
use tether.Prelude.{
  true, List, [], ◌∷◌, Option, none, some, Text, Result, ok, err, ◌>>=◌, ◌≡◌, refl, lookup, insert,
  lookup-insert, lookup-nil, lookup-cons, sym, Result-cases, inl, inr, is_some, arith, =t_iff, All,
  if◌then◌else◌,
}
use tether.Shape.Error.{Error}
use tether.Shape.Key.{key_part, key_parts, pk_key, put_all, put_missing, entries, patch_row}
use tether.Value.{Value, Runtime, Row, column}

-- The first of two options that holds a value.
abbrev pub or_else {ℓ} : {A : Type ℓ} → Option A → Option A → Option A
or_else none b = b
or_else (some a) b = some a

lookup-put_all :
    (j : Text) (r out : Row) → lookup j (put_all r out) ≡ or_else (lookup j r) (lookup j out)
unfolding put_all
lookup-put_all j [] out = rw (lookup-nil {V = Value} j)
lookup-put_all j ((k, v) ∷ r) out =
    ground (arith, lookup-insert k j v (put_all r out), lookup-put_all j r out, lookup-cons k j v r)

lookup-put_missing :
    (j : Text) (r out : Row) → lookup j (put_missing r out) ≡ or_else (lookup j out) (lookup j r)
unfolding put_missing
lookup-put_missing j [] out = ground (arith, lookup-nil {V = Value} j)
lookup-put_missing j ((k, v) ∷ r) out =
    let out' : Row = if is_some (lookup k out) then out else insert k v out in
    let ih : lookup j (put_missing r out') ≡ or_else (lookup j out') (lookup j r) =
      lookup-put_missing j r out' in
    ground (arith, ih, lookup-insert k j v out, lookup-cons k j v r, =t_iff k j)

column-entries : (j : Text) (r : Option Row) → column j r ≡ lookup j (entries r)
unfolding column
column-entries j none = sym (lookup-nil {V = Value} j)
column-entries j (some r) = refl

or_else-none {ℓ} :
    {A : Type ℓ} (a b c : Option A)
    → or_else c (or_else (or_else a none) b) ≡ or_else c (or_else a b)
or_else-none none b c = refl
or_else-none (some x) b c = refl

-- A patched row has at each column the new value, else the cached one, else the old one.
pub column-patch_row :
    (j : Text) (c old neu : Option Row)
    → column j (some (patch_row c old neu))
      ≡ or_else (column j neu) (or_else (column j c) (column j old))
unfolding patch_row column
column-patch_row j c old neu =
    rw
      (
        lookup-put_all j (entries neu) (put_missing (entries old) (put_all (entries c) [])),
        lookup-put_missing j (entries old) (put_all (entries c) []),
        lookup-put_all j (entries c) [],
        lookup-nil {V = Value} j,
        ← column-entries j neu,
        ← column-entries j c,
        ← column-entries j old,
      )
      (or_else-none (column j c) (column j old) (column j neu))

key_parts-cong :
    (go : Runtime) (cols : List Text) (r s : Option Row)
    → All (λ c. column c r ≡ column c s) cols
    → key_parts go cols r ≡ key_parts go cols s
unfolding key_parts
key_parts-cong go [] r s h = refl
key_parts-cong go (c ∷ cols) r s h = rw (h.0, key_parts-cong go cols r s h.1)

-- Two rows that agree on the key columns have the same key, or the same error.
pub pk_key-cong :
    (go : Runtime) (pk : List Text) (r s : Option Row)
    → All (λ c. column c r ≡ column c s) pk
    → pk_key go pk r ≡ pk_key go pk s
unfolding pk_key
pk_key-cong go [] r s h = refl
pk_key-cong go (c ∷ cols) r s h = rw (key_parts-cong go (c ∷ cols) r s h)

key_parts_present :
    (go : Runtime) (cols : List Text) (r : Option Row) (parts : List Text)
    → key_parts go cols r ≡ ok parts
    → All (λ c. is_some (column c r) ≡ true) cols
unfolding key_parts
key_parts_present go [] r parts h = tt
key_parts_present go (c ∷ cols) r parts h =
    go_on (column c r) (key_parts go cols r) (key_parts_present go cols r) h
  where
    go_on :
        (v : Option Value) (rest : Result Error (List Text))
        → ((ps : List Text) → rest ≡ ok ps → All (λ c. is_some (column c r) ≡ true) cols)
        → (do part ← key_part go c v; ps ← rest; ok (part ∷ ps)) ≡ ok parts
        → (is_some v ≡ true) × All (λ c. is_some (column c r) ≡ true) cols
    go_on none rest e h = cc
    go_on (some v) (err x) e h = cc
    go_on (some v) (ok ps) e h = (refl, e ps refl)

-- A row that has a key has every key column.
pub pk_key_present :
    (go : Runtime) (pk : List Text) (r : Option Row) (key : Text)
    → pk_key go pk r ≡ ok key
    → All (λ c. is_some (column c r) ≡ true) pk
unfolding pk_key
pk_key_present go [] r key h = tt
pk_key_present go (c ∷ cols) r key h = elim (Result-cases (key_parts go (c ∷ cols) r)) [
  | inl (parts, e) ↦ key_parts_present go (c ∷ cols) r parts e
  | inr (x, e) ↦ absurd (cc)
]
