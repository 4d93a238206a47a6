-- ===== src/Shape/Filter/Sql/Render.antt =====
-- From the text that a host writes to the text that the database gets.
use tether.Prelude.{
  bind_ok, ℕ, zero, suc, List, [], ◌∷◌, ◌++◌, Text, txt, Result, ok, ◌>>=◌, ◌≡◌, ◌≢◌, refl, ap, All,
  Unicode, trim_space, to_upper, length, ◌=t◌, index, drop, ◌+◌, Option-cases, Bool-cases, inl, inr,
  arith,
}
use tether.Shape.Error.{Error}
use tether.Shape.Filter.Matching.{IsBuilt}
use tether.Shape.Filter.Parse.{
  cut_at, split_from, split_and, slice_to, slice_from, parse_parts, parse_where,
}
use tether.Shape.Filter.Parse.Sound.{IsParsed, pred_args, args_of, parts_sound}
use tether.Shape.Filter.Sql.Parts.{Renders, sql_clause-Renders}
use tether.Shape.Filter.Sql.{Clause, placeholder, quote_ident, sql_pred, sql_preds, sql_clause}
use tether.Shape.Filter.{
  Filter, Predicate, PredOp, op_eq, op_ne, op_is_null, op_is_not_null, bad_op,
}
use tether.Value.{Value, join}

cut_at-ne-nil :
    (i : ℕ) (clause : Text) (loop : Text → Result Error (List Text)) (parts : List Text)
    → cut_at i clause loop ≡ ok parts
    → parts ≢ []
unfolding cut_at
cut_at-ne-nil i clause loop parts e none_left =
    let (part, _, e') = bind_ok (slice_to i clause) _ e in
    let (rest, _, e'') = bind_ok (slice_from (i + 5) clause) _ e' in
    let (more, _, e''') = bind_ok (loop rest) _ e'' in cc

split_from-ne-nil :
    (f : ℕ) (upper clause : Text) (parts : List Text)
    → split_from f upper clause ≡ ok parts
    → parts ≢ []
unfolding split_from
split_from-ne-nil zero upper clause parts e none_left = cc
split_from-ne-nil (suc f) upper clause parts e none_left =
    elim (Option-cases (index (txt " AND ") upper)) [
      | inl last ↦ ground arith
      | inr (i, there) ↦
          let same : cut_at i clause (split_from f (drop (i + 5) upper)) ≡ ok parts =
            ground arith in
          cut_at-ne-nil i clause _ parts same none_left
    ]

module _ (u : Unicode) where
  -- The number of the next placeholder.
  next_of : PredOp → ℕ → ℕ
  next_of op_eq n = suc n
  next_of op_ne n = suc n
  next_of _ n = n

  pred_renders :
      (p : Predicate) (col : Text) (op : PredOp) (n : ℕ) (rest : ℕ → Result Error Clause)
      (c : Clause)
      → op ≢ bad_op
      → rest (next_of op n) ≡ ok c
      → (s : Text) × (sql_pred p col op n rest ≡ ok (s ∷ c.0, pred_args op p.value ++ c.1))
  unfolding sql_pred next_of pred_args
  pred_renders p col op_eq n rest c known e = (col ++ (txt " = " ++ placeholder n), rw e)
  pred_renders p col op_ne n rest c known e = (col ++ (txt " <> " ++ placeholder n), rw e)
  pred_renders p col op_is_null n rest c known e = (col ++ txt " IS NULL", rw e)
  pred_renders p col op_is_not_null n rest c known e = (col ++ txt " IS NOT NULL", rw e)
  pred_renders p col bad_op n rest c known e = absurd (known refl)

  preds_render :
      (ps : List Predicate) (n : ℕ)
      → All (IsParsed u) ps
      → (parts : List Text) × (sql_preds u ps n ≡ ok (parts, args_of ps))
        × (length parts ≡ length ps)
  unfolding sql_preds args_of
  preds_render [] n h = ([], refl, refl)
  preds_render (p ∷ ps) n (good, goods) =
      let (parts, e, k) = preds_render ps (next_of p.op n) goods in
      let (s, e') =
        pred_renders p (quote_ident p.column) p.op n (sql_preds u ps) (parts, args_of ps)
          good.op_known e in
      (s ∷ parts, rw (good.column_valid) e', ap suc k)

  IsParsed-IsBuilt : (ps : List Predicate) → All (IsParsed u) ps → All (λ p. p.op ≢ bad_op) ps
  IsParsed-IsBuilt [] h = tt
  IsParsed-IsBuilt (p ∷ ps) (good, goods) = (good.op_known, IsParsed-IsBuilt ps goods)

  clause_renders :
      (ps : List Predicate)
      → All (IsParsed u) ps
      → ps ≢ []
      → (sql : Text) × (sql_clause u (record { preds = ps }) ≡ ok (sql, args_of ps))
  unfolding sql_clause
  clause_renders [] h some_pred = absurd (some_pred refl)
  clause_renders (p ∷ ps) h some_pred =
      let (parts, e, k) = preds_render (p ∷ ps) 1 h in (join (txt " AND ") parts, rw e)

  IsParsed-Renders :
      (parts : List Text) (args : List Value) (ps : List Predicate)
      → parts ≢ []
      → parse_parts u parts args ≡ ok ps
      → All (IsParsed u) ps
        × IsBuilt (record { preds = ps })
        × (args_of ps ≡ args)
        × ((sql : Text) × (sql_clause u (record { preds = ps }) ≡ ok (sql, args))
            × Renders ps sql args)
  IsParsed-Renders parts args ps some_part e =
      let (good, taken, n) = parts_sound u parts args ps e in
      let (sql, e') =
        clause_renders ps good (λ none_left. some_part (empty_of parts (rw none_left at n))) in
      let e'' : sql_clause u (record { preds = ps }) ≡ ok (sql, args) = rw taken at e' in
      (
        good,
        IsParsed-IsBuilt ps good,
        taken,
        (sql, e'', sql_clause-Renders u (record { preds = ps }) sql args e''),
      )
    where
      empty_of : (parts : List Text) → 0 ≡ length parts → parts ≡ []
      empty_of [] e = refl
      empty_of (part ∷ parts) e = absurd (omega arith)

  -- A filter that ParseWhere returns, whatever the clause and the arguments: each of its predicates
  -- has a valid column name and a known operator, and together they hold exactly the given
  -- arguments, in order. So no predicate has an operator that Match fails on, and SQLClause accepts
  -- the filter: it returns the given arguments in order, and a text with one part for each predicate,
  -- joined by AND, which names the predicate's column in quotes and has its comparison, `=` or `<>`
  -- with the placeholder that stands for its argument, or its test, IS NULL or IS NOT NULL.
  pub sql_clause-parse_where :
      (raw : Text) (args : List Value) (f : Filter)
      → parse_where u raw args ≡ ok f
      → All (IsParsed u) f.preds
        × IsBuilt f
        × (args_of f.preds ≡ args)
        × ((sql : Text) × (sql_clause u f ≡ ok (sql, args)) × Renders f.preds sql args)
  unfolding parse_where split_and
  sql_clause-parse_where raw args f e = elim (Bool-cases (trim_space u raw =t [])) [
    | inl empty ↦ ground arith
    | inr full ↦
        let upper = to_upper u (trim_space u raw) in
        let (parts, cuts, e') =
          bind_ok (split_from (suc (length upper)) upper (trim_space u raw))
            (λ parts. do preds ← parse_parts u parts args; ok (record { preds = preds })) {b = f}
            (rw full at e) in
        let (ps, made, e'') =
          bind_ok (parse_parts u parts args) (λ preds. ok (record { preds = preds })) {b = f} e' in
        let same : record { preds = ps } ≡ f = cc in
        rw (← same) (
          IsParsed-Renders parts args ps
            (split_from-ne-nil (suc (length upper)) upper (trim_space u raw) parts cuts) made)
  ]
