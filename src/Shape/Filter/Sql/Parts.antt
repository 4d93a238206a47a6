-- ===== src/Shape/Filter/Sql/Parts.antt =====
-- The text of SQLClause, read as SQL: each part names a column and a condition on it.
use tether.Prelude.{
  ℕ, zero, suc, List, [], ◌∷◌, ◌++◌, Option, none, some, Text, txt, ok, ◌>>=◌, bind_ok, Unicode,
  length, ◌≡◌, refl, sym, ap, ◌∙◌, arith,
}
use mathlib.Core.List.{append_assoc}
use tether.Shape.Filter.Parse.{validate_ident}
use tether.Shape.Filter.Sql.Quote.{Ends, read_quoted, read_quoted-quote_ident}
use tether.Shape.Filter.Sql.{Clause, placeholder, quote_ident, sql_pred, sql_preds, sql_clause}
use tether.Shape.Filter.{
  Filter, Predicate, PredOp, op_eq, op_ne, op_is_null, op_is_not_null, bad_op,
}
use tether.Value.{Value, decimal, join}

-- The argument that $(i + 1) stands for.
unfoldable pub arg : ℕ → List Value → Option Value
arg i [] = none
arg zero (v ∷ vs) = some v
arg (suc i) (v ∷ vs) = arg i vs

-- The condition behind a column: a comparison with an argument, or a test for NULL.
abbrev pub Condition : List Value → PredOp → Value → Text → Type 0
Condition args op_eq v rest =
    (i : ℕ) × (rest ≡ txt " = $" ++ decimal (suc i)) × (arg i args ≡ some v)
Condition args op_ne v rest =
    (i : ℕ) × (rest ≡ txt " <> $" ++ decimal (suc i)) × (arg i args ≡ some v)
Condition args op_is_null v rest = rest ≡ txt " IS NULL"
Condition args op_is_not_null v rest = rest ≡ txt " IS NOT NULL"
Condition args bad_op v rest = ⊥

-- The database reads the part's column, between its quotes, as that of the predicate, and behind it
-- stands the predicate's condition.
abbrev pub Part : List Value → Predicate → Text → Type 0
Part args p part =
    (body : Text) × (rest : Text) × (part ≡ b'"' ∷ body)
    × (read_quoted body ≡ some (p.column, rest))
    × Condition args p.op p.value rest

abbrev pub Parts : List Value → List Predicate → List Text → Type 0
Parts args [] [] = Unit
Parts args [] (s ∷ ss) = ⊥
Parts args (p ∷ ps) [] = ⊥
Parts args (p ∷ ps) (s ∷ ss) = Part args p s × Parts args ps ss

-- A text and arguments say what the predicates say, in order and joined by AND.
abbrev pub Renders : List Predicate → Text → List Value → Type 0
Renders ps sql args = (parts : List Text) × (sql ≡ join (txt " AND ") parts) × Parts args ps parts

arg-last :
    (pre : List Value) (v : Value) (args : List Value) → arg (length pre) (pre ++ v ∷ args) ≡ some v
unfolding arg
arg-last [] v args = refl
arg-last (w ∷ pre) v args = arg-last pre v args

length-snoc : (pre : List Value) (v : Value) → length (pre ++ v ∷ []) ≡ suc (length pre)
length-snoc [] v = refl
length-snoc (w ∷ pre) v = ap suc (length-snoc pre v)

named : (u : Unicode) (name out : Text) → validate_ident u name ≡ ok out → out ≡ name
unfolding validate_ident
named u name out e = ground arith

quoted :
    (p : Predicate) (args : List Value) (rest : Text)
    → Ends rest
    → Condition args p.op p.value rest
    → Part args p (quote_ident p.column ++ rest)
quoted p args rest ends cond =
    let (body, e, r) = read_quoted-quote_ident p.column rest ends in (body, rest, e, r, cond)

module _ (u : Unicode) where
  -- What the loop gives behind a predicate, with the arguments before.
  abbrev Later : List Predicate → Type 0
  Later ps =
      (pre : List Value) (c : Clause)
      → sql_preds u ps (suc (length pre)) ≡ ok c
      → Parts (pre ++ c.1) ps c.0

  -- The arguments behind the one of a comparison.
  behind :
      (ps : List Predicate) (pre : List Value) (v : Value) (c : Clause)
      → Later ps
      → sql_preds u ps (suc (suc (length pre))) ≡ ok c
      → Parts (pre ++ v ∷ c.1) ps c.0
  behind ps pre v c later b =
      let more =
        later (pre ++ v ∷ []) c (ap (λ n. sql_preds u ps (suc n)) (length-snoc pre v) ∙ b) in
      rw (append_assoc pre (v ∷ []) c.1) at more

  pred_Part :
      (p : Predicate) (op : PredOp) (pre : List Value) (ps : List Predicate) (c : Clause)
      → p.op ≡ op
      → sql_pred p (quote_ident p.column) op (suc (length pre)) (sql_preds u ps) ≡ ok c
      → Later ps
      → Parts (pre ++ c.1) (p ∷ ps) c.0
  unfolding sql_pred placeholder
  pred_Part p op_eq pre ps c eo e later =
      let (d, b, e') = bind_ok (sql_preds u ps (suc (suc (length pre)))) _ {b = c} e in
      let rest = txt " = $" ++ decimal (suc (length pre)) in
      let same : ((quote_ident p.column ++ rest) ∷ d.0, p.value ∷ d.1) ≡ c = cc in
      rw (← same) (
        quoted p (pre ++ p.value ∷ d.1) rest refl
            (rw eo (length pre, refl, arg-last pre p.value d.1)),
        behind ps pre p.value d later b,
      )
  pred_Part p op_ne pre ps c eo e later =
      let (d, b, e') = bind_ok (sql_preds u ps (suc (suc (length pre)))) _ {b = c} e in
      let rest = txt " <> $" ++ decimal (suc (length pre)) in
      let same : ((quote_ident p.column ++ rest) ∷ d.0, p.value ∷ d.1) ≡ c = cc in
      rw (← same) (
        quoted p (pre ++ p.value ∷ d.1) rest refl
            (rw eo (length pre, refl, arg-last pre p.value d.1)),
        behind ps pre p.value d later b,
      )
  pred_Part p op_is_null pre ps c eo e later =
      let (d, b, e') = bind_ok (sql_preds u ps (suc (length pre))) _ {b = c} e in
      let same : ((quote_ident p.column ++ txt " IS NULL") ∷ d.0, d.1) ≡ c = cc in
      rw (← same) (quoted p (pre ++ d.1) (txt " IS NULL") refl (rw eo refl), later pre d b)
  pred_Part p op_is_not_null pre ps c eo e later =
      let (d, b, e') = bind_ok (sql_preds u ps (suc (length pre))) _ {b = c} e in
      let same : ((quote_ident p.column ++ txt " IS NOT NULL") ∷ d.0, d.1) ≡ c = cc in
      rw (← same) (quoted p (pre ++ d.1) (txt " IS NOT NULL") refl (rw eo refl), later pre d b)
  pred_Part p bad_op pre ps c eo e later = cc

  sql_preds_cons :
      (ps : List Predicate) (p : Predicate) (pre : List Value) (c : Clause)
      → sql_preds u (p ∷ ps) (suc (length pre)) ≡ ok c
      → (validate_ident u p.column >>= λ name.
          sql_pred p (quote_ident name) p.op (suc (length pre)) (sql_preds u ps))
        ≡ ok c
  unfolding sql_preds
  sql_preds_cons ps p pre c e = e

  preds_Parts : (ps : List Predicate) → Later ps
  preds_Parts [] pre c e = let same : ([], []) ≡ c = unfold sql_preds in cc in rw (← same) tt
  preds_Parts (p ∷ ps) pre c e =
      let (name, valid, e') =
        bind_ok (validate_ident u p.column)
          (λ name. sql_pred p (quote_ident name) p.op (suc (length pre)) (sql_preds u ps))
          (sql_preds_cons ps p pre c e) in
      pred_Part p p.op pre ps c refl (rw (named u p.column name valid) at e') (preds_Parts ps)

  -- What SQLClause returns says what the predicates say.
  pub sql_clause-Renders :
      (f : Filter) (sql : Text) (args : List Value)
      → sql_clause u f ≡ ok (sql, args)
      → Renders f.preds sql args
  unfolding sql_clause
  sql_clause-Renders f sql args = at f.preds refl
    where
      at :
          (ps : List Predicate)
          → f.preds ≡ ps
          → sql_clause u f ≡ ok (sql, args)
          → Renders f.preds sql args
      at [] ep e = absurd (ground arith)
      at (p ∷ ps) ep e =
          let e0 : (do (parts, args) ← sql_preds u (p ∷ ps) 1; ok (join (txt " AND ") parts, args))
              ≡ ok (sql, args) =
            rw ep at e in
          let (c, b, e') = bind_ok (sql_preds u (p ∷ ps) 1) _ {b = (sql, args)} e0 in
          let text : join (txt " AND ") c.0 ≡ sql = cc in
          let values : c.1 ≡ args = cc in
          rw ep (c.0, sym text, rw values at (preds_Parts (p ∷ ps) [] c b))
