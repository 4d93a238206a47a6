-- ===== src/Shape/Filter/Parse/Sound.antt =====
-- What a filter that ParseWhere returns is like, and that SQLClause renders it.
use tether.Prelude.{
  bind_ok, ℕ, suc, Bool, true, false, List, [], ◌∷◌, ◌++◌, some, Text, txt, Result, ok, ◌>>=◌, ◌≡◌,
  ◌≢◌, refl, ap, ◌∙◌, ◌⊎◌, inl, inr, All, Unicode, trim_space, to_upper, index, take, drop, length,
  has_suffix, if◌then◌else◌, ◌+◌, ◌=t◌, runes, Bool-cases, Option-cases, arith,
}
use tether.Shape.Error.{Error}
use tether.Shape.Filter.Parse.{
  check_fragment, validate_ident, try_separator, or_else, parse_comparison, null_pred, compare_pred,
  drop_last, parse_part, parse_parts, ident_runes,
}
use tether.Shape.Filter.{Predicate, PredOp, op_eq, op_ne, op_is_null, op_is_not_null, bad_op}
use tether.Value.{Value, nil}

-- The arguments that the predicates take, in order.
unfoldable pub pred_args : PredOp → Value → List Value
pred_args op_eq v = v ∷ []
pred_args op_ne v = v ∷ []
pred_args _ v = []

unfoldable pub args_of : List Predicate → List Value
unfolding pred_args
args_of [] = []
args_of (p ∷ ps) = pred_args p.op p.value ++ args_of ps

module _ (u : Unicode) where
  -- A predicate that ParseWhere makes: a column that validateIdent takes, and an operator.
  pub record IsParsed (p : Predicate) : Type 0 where
    pub column_valid : validate_ident u p.column ≡ ok p.column
    pub op_known : p.op ≢ bad_op

  -- validateIdent returns the name that it is given.
  valid_self : (name out : Text) → validate_ident u name ≡ ok out → validate_ident u out ≡ ok out
  unfolding validate_ident
  valid_self name out e = elim (Bool-cases (name =t [])) [
    | inl empty ↦ ground arith
    | inr some_name ↦ elim (Bool-cases (ident_runes u true (runes u name))) [
      | inl good ↦ let same : name ≡ out = ground arith in rw (← same) (rw (some_name, good))
      | inr bad ↦ ground arith
    ]
  ]

  fragment_sound :
      (op : PredOp) (part col rhs : Text) (c : Text × PredOp)
      → check_fragment u op part col rhs ≡ ok c
      → (validate_ident u c.0 ≡ ok c.0) × (c.1 ≡ op)
  unfolding check_fragment
  fragment_sound op part col rhs (name, op') e = elim (Bool-cases (rhs =t txt "?")) [
    | inr other ↦ let e' = (rw other at e) in cc
    | inl mark ↦
        let (out, v, k) =
          bind_ok (validate_ident u col) (λ name. ok (name, op)) {b = (name, op')} (rw mark at e) in
        let same : out ≡ name = cc in (rw (← same) (valid_self col out v), cc)
  ]

  separator_sound :
      (sep : Text) (op : PredOp) (part : Text) (r : Result Error (Text × PredOp))
      (c : Text × PredOp)
      → try_separator u sep op part ≡ some r
      → r ≡ ok c
      → (validate_ident u c.0 ≡ ok c.0) × (c.1 ≡ op)
  unfolding try_separator
  separator_sound sep op part r c e e' = elim (Option-cases (index sep part)) [
    | inl nowhere ↦ ground arith
    | inr (i, there) ↦
        let col = trim_space u (take i part) in
        let rhs = trim_space u (drop (i + length sep) part) in
        let same : check_fragment u op part col rhs ≡ r = ground arith in
        fragment_sound op part col rhs c (same ∙ e')
  ]

  -- The operator is one that takes an argument.
  abbrev pub IsComparison : PredOp → Type 0
  IsComparison op = (op ≡ op_eq) ⊎ (op ≡ op_ne)

  IsComparison-sound :
      (part : Text) (c : Text × PredOp)
      → parse_comparison u part ≡ ok c
      → (validate_ident u c.0 ≡ ok c.0) × IsComparison c.1
  unfolding parse_comparison or_else
  IsComparison-sound part c e = elim (Option-cases (try_separator u (txt "!=") op_ne part)) [
    | inr (r, t) ↦
        let (v, o) = separator_sound (txt "!=") op_ne part r c t (ground arith) in (v, inr o)
    | inl t ↦ elim (Option-cases (try_separator u (txt "<>") op_ne part)) [
      | inr (r, t') ↦
          let (v, o) = separator_sound (txt "<>") op_ne part r c t' (ground arith) in (v, inr o)
      | inl t' ↦ elim (Option-cases (try_separator u (txt "=") op_eq part)) [
        | inr (r, t'') ↦
            let (v, o) = separator_sound (txt "=") op_eq part r c t'' (ground arith) in (v, inl o)
        | inl t'' ↦ ground arith
      ]
    ]
  ]

  IsNullTest : PredOp → Type 0
  IsNullTest op = (op ≡ op_is_null) ⊎ (op ≡ op_is_not_null)

  null_sound :
      (col : Text) (op : PredOp) (p : Predicate)
      → IsNullTest op
      → null_pred u col op ≡ ok p
      → IsParsed p × (pred_args p.op p.value ≡ [])
  unfolding null_pred pred_args IsNullTest
  null_sound col op p o e =
      let (out, v, k) = bind_ok (validate_ident u (trim_space u col)) _ e in
      let same : record { column = out; op = op; value = nil } ≡ p = cc in
      let v' = valid_self _ out v in
      rw (← same) (elim o [
        | inl a ↦ (record { column_valid = v'; op_known = λ b. cc }, rw a)
        | inr a ↦ (record { column_valid = v'; op_known = λ b. cc }, rw a)
      ])

  compare_sound :
      (c : Text × PredOp) (args : List Value) (one : Predicate × List Value)
      → validate_ident u c.0 ≡ ok c.0
      → IsComparison c.1
      → compare_pred u c args ≡ ok one
      → IsParsed one.0 × (pred_args one.0.op one.0.value ++ one.1 ≡ args)
  unfolding compare_pred pred_args
  compare_sound (col, op) [] one v o e = cc
  compare_sound (col, op) (w ∷ args) one v o e =
      let p : Predicate = record { column = col; op = op; value = w } in
      let same : ◌≡◌ {A = Predicate × List Value} (p, args) one = cc in
      rw (← same) (elim o [
        | inl eq ↦ (record { column_valid = v; op_known = λ b. cc }, rw eq)
        | inr ne ↦ (record { column_valid = v; op_known = λ b. cc }, rw ne)
      ])

  -- One part: the predicate, with the arguments that it takes off the front.
  part_sound :
      (raw : Text) (args : List Value) (one : Predicate × List Value)
      → parse_part u raw args ≡ ok one
      → IsParsed one.0 × (pred_args one.0.op one.0.value ++ one.1 ≡ args)
  unfolding parse_part IsNullTest
  part_sound raw args one e =
      at (has_suffix (txt " IS NOT NULL") (to_upper u (trim_space u raw)))
        (has_suffix (txt " IS NULL") (to_upper u (trim_space u raw))) (trim_space u raw) e
    where
      null_case :
          (n : ℕ) (op : PredOp) (part : Text)
          → IsNullTest op
          → (do col ← drop_last n part; p ← null_pred u col op; ok (p, args)) ≡ ok one
          → IsParsed one.0 × (pred_args one.0.op one.0.value ++ one.1 ≡ args)
      null_case n op part o e =
          let (col, _, e') = bind_ok (drop_last n part) _ e in
          let (p, made, e'') = bind_ok (null_pred u col op) _ e' in
          let same : ◌≡◌ {A = Predicate × List Value} (p, args) one = cc in
          let (good, none_taken) = null_sound col op p o made in
          rw (← same) (good, ap (λ x. x ++ args) none_taken)

      at :
          (not_null null : Bool) (part : Text)
          → (if not_null
              then (do col ← drop_last 12 part; p ← null_pred u col op_is_not_null; ok (p, args))
              else if null
              then (do col ← drop_last 8 part; p ← null_pred u col op_is_null; ok (p, args))
              else (do c ← parse_comparison u part; compare_pred u c args))
            ≡ ok one
          → IsParsed one.0 × (pred_args one.0.op one.0.value ++ one.1 ≡ args)
      at true null part e = null_case 12 op_is_not_null part (inr refl) e
      at false true part e = null_case 8 op_is_null part (inl refl) e
      at false false part e =
          let (c, parsed, e') = bind_ok (parse_comparison u part) _ e in
          let (v, o) = IsComparison-sound part c parsed in compare_sound c args one v o e'

  pub parts_sound :
      (parts : List Text) (args : List Value) (preds : List Predicate)
      → parse_parts u parts args ≡ ok preds
      → All IsParsed preds × (args_of preds ≡ args) × (length preds ≡ length parts)
  unfolding parse_parts args_of
  parts_sound [] [] preds e = let same : [] ≡ preds = cc in rw (← same) (tt, refl, refl)
  parts_sound [] (v ∷ args) preds e = cc
  parts_sound (part ∷ parts) args preds e =
      let (one, made, e') = bind_ok (parse_part u part args) _ e in
      let (ps, rest, e'') = bind_ok (parse_parts u parts one.1) _ e' in
      let same : one.0 ∷ ps ≡ preds = cc in
      let (good, taken) = part_sound part args one made in
      let (goods, left, n) = parts_sound parts one.1 ps rest in
      rw (← same) ((good, goods), rw left taken, ap suc n)
