-- ===== src/Shape/Filter/Parse/Part.antt =====
-- One printed predicate, as the loop of ParseWhere reads it.
use tether.Prelude.{
  ℕ, zero, suc, ◌+◌, ◌-◌, ◌<◌, true, false, List, [], ◌∷◌, ◌++◌, map, none, some, Text, txt, ◌=t◌,
  ok, ◌≡◌, ◌≢◌, refl, sym, ap, ◌∙◌, length, length-append, take, drop, last?, leb, arith, Unicode,
  is_ascii, upper_byte, trim_left, trim_right, trim_space, has_prefix, index, is_space, keep_byte,
}
use mathlib.Core.List.{append-nil}
use tether.Shape.Filter.Parse.{
  validate_ident, check_fragment, try_separator, or_else, parse_comparison, null_pred, compare_pred,
  drop_last, parse_part,
}
use tether.Shape.Filter.Parse.Shown.{
  op_text, Fits, trim_show, trim_name, upper_show, few_spaces, spaces, other_end,
}
use tether.Shape.Filter.Parse.Sound.{pred_args}
use tether.Shape.Filter.Parse.Words.{
  is_word, word_byte, Lacks-word, index_past, index_nowhere, has_suffix-append,
}
use tether.Shape.Filter.{PredOp, op_eq, op_ne, op_is_null, op_is_not_null, bad_op}
use tether.Value.{Value, nil}

pub take_all : (w t : Text) → take (length w) (w ++ t) ≡ w
take_all [] t = refl
take_all (c ∷ w) t = ap (◌∷◌ c) (take_all w t)

pub drop_all : (n m : ℕ) (w t : Text) → m ≡ length w + n → drop m (w ++ t) ≡ drop n t
drop_all n m [] t e = let e' : m ≡ n = omega arith in rw e'
drop_all n zero (c ∷ w) t e = absurd (omega arith)
drop_all n (suc m) (c ∷ w) t e = drop_all n m w t (omega arith)

take_more : (n m : ℕ) (w t : Text) → m ≡ length w + n → take m (w ++ t) ≡ w ++ take n t
take_more n m [] t e = let e' : m ≡ n = omega arith in rw e'
take_more n zero (c ∷ w) t e = absurd (omega arith)
take_more n (suc m) (c ∷ w) t e = ap (◌∷◌ c) (take_more n m w t (omega arith))

drop_last_text : (w t : Text) → drop_last (length t) (w ++ t) ≡ ok w
unfolding drop_last
drop_last_text w t =
    let n = length-append w t in
    let fits : leb (length t) (length (w ++ t)) ≡ true = ground (arith, n) in
    rw fits (ap ok (take_more 0 (length (w ++ t) - length t) w t (omega (arith, n)) ∙ append-nil w))

try_found :
    (u : Unicode) (sep : Text) (op : PredOp) (part : Text) (i : ℕ)
    → index sep part ≡ some i
    → try_separator u sep op part
      ≡ some (
          check_fragment u op part
            (trim_space u (take i part))
            (trim_space u (drop (i + length sep) part)))
unfolding try_separator
try_found u sep op part i e = ground arith

try_nowhere :
    (u : Unicode) (sep : Text) (op : PredOp) (part : Text)
    → index sep part ≡ none
    → try_separator u sep op part ≡ none
unfolding try_separator
try_nowhere u sep op part e = ground arith

check_reads :
    (u : Unicode) (op : PredOp) (part col rhs w : Text)
    → col ≡ w
    → rhs ≡ txt "?"
    → validate_ident u w ≡ ok w
    → check_fragment u op part col rhs ≡ ok (w, op)
unfolding check_fragment ◌=t◌
check_reads u op part col rhs w e e' v = rw (e, e', v)

module _ (u : Unicode) (w : Text) (hw : is_word w ≡ true) (v : validate_ident u w ≡ ok w) where
  null_reads : (op : PredOp) → null_pred u w op ≡ ok (record { column = w; op = op; value = nil })
  unfolding null_pred
  null_reads op =
      let t : trim_space u w ≡ w =
        ap (trim_space u) (sym (append-nil w))
        ∙ trim_name u w [] hw v (unfold is_ascii in refl) (unfold trim_right in refl) in
      rw (t, v)

  part_null :
      (args : List Value)
      → parse_part u (w ++ txt " IS NULL") args
        ≡ ok (record { column = w; op = op_is_null; value = nil }, args)
  unfolding parse_part upper_byte is_ascii trim_right is_space spaces
  part_null args =
      let t : Text = txt " IS NULL" in
      rw (
        trim_show u w t 32 (txt "IS NULL") hw v refl refl refl,
        upper_show u w t hw refl,
        few_spaces (txt " IS NOT NULL") w t hw (omega arith),
        has_suffix-append t (map upper_byte w),
        drop_last_text w t,
        null_reads op_is_null,
      )

  part_not_null :
      (args : List Value)
      → parse_part u (w ++ txt " IS NOT NULL") args
        ≡ ok (record { column = w; op = op_is_not_null; value = nil }, args)
  unfolding parse_part upper_byte is_ascii trim_right is_space
  part_not_null args =
      let t : Text = txt " IS NOT NULL" in
      rw (
        trim_show u w t 32 (txt "IS NOT NULL") hw v refl refl refl,
        upper_show u w t hw refl,
        has_suffix-append t (map upper_byte w),
        drop_last_text w t,
        null_reads op_is_not_null,
      )

  nowhere :
      (b : ℕ) (sub t : Text)
      → word_byte b ≡ false
      → index (b ∷ sub) t ≡ none
      → index (b ∷ sub) (w ++ t) ≡ none
  nowhere b sub t hb h = index_nowhere b sub w t (Lacks-word b w hb hw) h

  -- A separator of which the text behind the name has the first occurrence at 1.
  reads_at :
      (b : ℕ) (sub t : Text) (op : PredOp)
      → word_byte b ≡ false
      → index (b ∷ sub) t ≡ some 1
      → take 1 t ≡ txt " "
      → trim_space u (drop (1 + length (b ∷ sub)) t) ≡ txt "?"
      → try_separator u (b ∷ sub) op (w ++ t) ≡ some (ok (w, op))
  reads_at b sub t op hb there before behind =
      let n = length w + 1 in
      let left : take n (w ++ t) ≡ w ++ txt " " =
        take_more 1 n w t refl ∙ ap (λ x. w ++ x) before in
      let right : drop (n + length (b ∷ sub)) (w ++ t) ≡ drop (1 + length (b ∷ sub)) t =
        drop_all (1 + length (b ∷ sub)) (n + length (b ∷ sub)) w t (omega arith) in
      let blank =
        trim_name u w (txt " ") hw v (unfold is_ascii in refl)
          (unfold trim_right is_space in refl) in
      try_found u (b ∷ sub) op (w ++ t) n (index_past b 1 sub w t (Lacks-word b w hb hw) there)
      ∙ ap some (
          check_reads u op (w ++ t) (trim_space u (take n (w ++ t)))
            (trim_space u (drop (n + length (b ∷ sub)) (w ++ t))) w (ap (trim_space u) left ∙ blank)
            (ap (trim_space u) right ∙ behind) v)

  eq_reads : parse_comparison u (w ++ txt " = ?") ≡ ok (w, op_eq)
  unfolding parse_comparison or_else word_byte index has_prefix trim_space is_ascii trim_left
      trim_right is_space
  eq_reads =
      let t = txt " = ?" in
      rw (
        try_nowhere u (txt "!=") op_ne (w ++ t) (nowhere b'!' (txt "=") t refl refl),
        try_nowhere u (txt "<>") op_ne (w ++ t) (nowhere b'<' (txt ">") t refl refl),
        reads_at b'=' [] t op_eq refl refl refl refl,
      )

  ne_reads : parse_comparison u (w ++ txt " != ?") ≡ ok (w, op_ne)
  unfolding parse_comparison or_else word_byte index has_prefix trim_space is_ascii trim_left
      trim_right is_space
  ne_reads = let t = txt " != ?" in rw (reads_at b'!' (txt "=") t op_ne refl refl refl refl)

  differs : (t : Text) → last? t ≡ some b'?' → last? t ≢ last? (txt " IS NULL")
  differs t end e = let e' : some b'?' ≡ some b'L' = sym end ∙ e in ground (arith, e')

  part_compare :
      (op : PredOp) (c : ℕ) (s : Text) (value : Value) (args : List Value)
      → trim_right (c ∷ s) ≡ c ∷ s
      → is_ascii (c ∷ s) ≡ true
      → spaces (map upper_byte (c ∷ s)) < 3
      → last? (map upper_byte (c ∷ s)) ≡ some b'?'
      → parse_comparison u (w ++ (c ∷ s)) ≡ ok (w, op)
      → parse_part u (w ++ (c ∷ s)) (value ∷ args)
        ≡ ok (record { column = w; op = op; value = value }, args)
  unfolding parse_part compare_pred spaces
  part_compare op c s value args fixed asc few end reads =
      let t = map upper_byte (c ∷ s) in
      let long = few_spaces (txt " IS NOT NULL") w t hw few in
      let short =
        other_end (map upper_byte w) t (txt " IS NULL") (upper_byte c) 32 (map upper_byte s)
          (txt "IS NULL") refl refl (differs t end) in
      rw (
        trim_show u w (c ∷ s) c s hw v asc fixed refl,
        upper_show u w (c ∷ s) hw asc,
        long,
        short,
        reads,
      )

  -- One predicate, printed, is read back with the arguments it takes.
  pub part_reads :
      (op : PredOp) (value : Value) (args : List Value)
      → Fits op value
      → parse_part u (w ++ op_text op) (pred_args op value ++ args)
        ≡ ok (record { column = w; op = op; value = value }, args)
  unfolding op_text pred_args is_ascii trim_right keep_byte is_space spaces upper_byte
  part_reads op_eq value args fits =
      part_compare op_eq 32 (txt "= ?") value args refl refl (omega arith) refl eq_reads
  part_reads op_ne value args fits =
      part_compare op_ne 32 (txt "!= ?") value args refl refl (omega arith) refl ne_reads
  part_reads op_is_null value args fits =
      part_null args
      ∙ ap (λ x. ok (record { column = w; op = op_is_null; value = x }, args)) (sym fits)
  part_reads op_is_not_null value args fits =
      part_not_null args
      ∙ ap (λ x. ok (record { column = w; op = op_is_not_null; value = x }, args)) (sym fits)
  part_reads bad_op value args fits = absurd fits
