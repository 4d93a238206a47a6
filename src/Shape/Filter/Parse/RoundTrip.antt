-- ===== src/Shape/Filter/Parse/RoundTrip.antt =====
-- ParseWhere reads back a clause of several printed predicates.
use tether.Prelude.{
  ℕ, zero, suc, ◌+◌, ◌<◌, true, false, List, [], ◌∷◌, ◌++◌, map, none, some, Text, txt, ◌=t◌,
  Result, ok, ◌≡◌, refl, sym, ap, ◌∙◌, length, length-append, take, drop, leb, arith, All, Unicode,
  is_ascii, upper_byte, trim_left, trim_right, trim_space, index, keep_byte,
}
use mathlib.Core.List.{append_assoc, map-append}
use tether.Shape.Error.{Error}
use tether.Shape.Filter.Parse.{
  slice_to, slice_from, cut_at, split_from, split_and, parse_parts, parse_where,
}
use tether.Shape.Filter.Parse.Shown.{
  op_text, show_pred, show_where, IsPlain, is_ascii-op_text, upper_of, trim_of,
}
use tether.Shape.Filter.Parse.Sound.{args_of}
use tether.Shape.Filter.Parse.Words.{is_ascii-append, is_ascii-word}
use tether.Shape.Filter.{Predicate}
use tether.Value.{join}
use tether.Shape.Filter.Parse.Part.{take_all, drop_all, part_reads}
use tether.Shape.Filter.Parse.Words.{trim_right_end}
use tether.Shape.Filter.Parse.Shown.{word_head, left_stays}
use tether.Shape.Filter.Parse.Cut.{length_upper, op_end, op_head, index_first, index_last}

cut_reads :
    (i : ℕ) (one rest : Text) (loop : Text → Result Error (List Text)) (parts : List Text)
    → i ≡ length one
    → loop rest ≡ ok parts
    → cut_at i (one ++ (txt " AND " ++ rest)) loop ≡ ok (one ∷ parts)
unfolding cut_at slice_to slice_from
cut_reads i one rest loop parts e reads =
    let n = length-append one (txt " AND " ++ rest) in
    let m = length-append (txt " AND ") rest in
    let whole = one ++ (txt " AND " ++ rest) in
    let to : leb i (length whole) ≡ true = ground (arith, n, e) in
    let from : leb (i + 5) (length whole) ≡ true = ground (arith, n, m, e) in
    let front : take i whole ≡ one = rw e (take_all one (txt " AND " ++ rest)) in
    let back : drop (i + 5) whole ≡ rest =
      drop_all 5 (i + 5) one (txt " AND " ++ rest) (ap (λ x. x + 5) e) in
    rw (to, from, front, back, reads)

split_found :
    (f i : ℕ) (upper clause : Text)
    → index (txt " AND ") upper ≡ some i
    → split_from (suc f) upper clause ≡ cut_at i clause (split_from f (drop (i + 5) upper))
unfolding split_from
split_found f i upper clause e = ground (arith, e)

split_alone :
    (f : ℕ) (upper clause : Text)
    → index (txt " AND ") upper ≡ none
    → split_from (suc f) upper clause ≡ ok (clause ∷ [])
unfolding split_from
split_alone f upper clause e = ground (arith, e)

module _ (u : Unicode) where
  upper_and :
      (one rest : Text)
      → map upper_byte (one ++ (txt " AND " ++ rest))
        ≡ map upper_byte one ++ (txt " AND " ++ map upper_byte rest)
  unfolding upper_byte
  upper_and one rest =
      map-append upper_byte one (txt " AND " ++ rest)
      ∙ ap (λ x. map upper_byte one ++ x) (map-append upper_byte (txt " AND ") rest)

  split_reads :
      (f : ℕ) (p : Predicate) (ps : List Predicate)
      → All (IsPlain u) (p ∷ ps)
      → length (show_where (p ∷ ps)) < f
      → split_from f (map upper_byte (show_where (p ∷ ps))) (show_where (p ∷ ps))
        ≡ ok (map show_pred (p ∷ ps))
  unfolding show_where join
  split_reads zero p ps plain h = absurd (omega arith)
  split_reads (suc f) p [] (plain, _) h =
      split_alone f (map upper_byte (show_pred p)) (show_pred p) (index_last u p plain)
  split_reads (suc f) p (q ∷ ps) (plain, plains) h =
      let one = show_pred p in
      let rest = show_where (q ∷ ps) in
      let n = length-append one (txt " AND " ++ rest) in
      let m = length-append (txt " AND ") rest in
      let back : drop (length one + 5) (map upper_byte (one ++ (txt " AND " ++ rest)))
          ≡ map upper_byte rest =
        rw (upper_and one rest) (
          drop_all 5 (length one + 5) (map upper_byte one) (txt " AND " ++ map upper_byte rest)
            (omega (arith, length_upper one))) in
      split_found f (length one) (map upper_byte (one ++ (txt " AND " ++ rest)))
        (one ++ (txt " AND " ++ rest))
        (rw (upper_and one rest) (index_first u p (map upper_byte rest) plain))
      ∙ cut_reads (length one) one rest
          (split_from f (drop (length one + 5) (map upper_byte (one ++ (txt " AND " ++ rest)))))
          (map show_pred (q ∷ ps)) refl
          (rw back (split_reads f q ps plains (omega (arith, h, n, m))))

  ascii_where : (ps : List Predicate) → All (IsPlain u) ps → is_ascii (show_where ps) ≡ true
  unfolding show_where join show_pred is_ascii
  ascii_where [] plain = refl
  ascii_where (p ∷ []) (plain, _) =
      is_ascii-append p.column (op_text p.op) (is_ascii-word p.column plain.word)
        (is_ascii-op_text p.op)
  ascii_where (p ∷ q ∷ ps) (plain, plains) =
      is_ascii-append (show_pred p) (txt " AND " ++ show_where (q ∷ ps))
        (is_ascii-append p.column (op_text p.op) (is_ascii-word p.column plain.word)
          (is_ascii-op_text p.op))
        (is_ascii-append (txt " AND ") (show_where (q ∷ ps)) refl (ascii_where (q ∷ ps) plains))

  -- The printed predicates begin with the first column and what stands behind it.
  where_head :
      (p : Predicate) (ps : List Predicate) → (t : Text) × (show_where (p ∷ ps) ≡ p.column ++ t)
  unfolding show_where join show_pred
  where_head p [] = (op_text p.op, refl)
  where_head p (q ∷ ps) =
      (op_text p.op ++ (txt " AND " ++ show_where (q ∷ ps)), append_assoc p.column (op_text p.op) _)

  where_byte :
      (p : Predicate) (ps : List Predicate)
      → IsPlain u p
      → (c : ℕ) × (s : Text) × (show_where (p ∷ ps) ≡ c ∷ s)
  where_byte p ps plain =
      let (t, e) = where_head p ps in
      let (c, r, e') = word_head u p.column plain.valid in (c, r ++ t, e ∙ ap (λ x. x ++ t) e')

  right_stays :
      (p : Predicate) (ps : List Predicate)
      → All (IsPlain u) (p ∷ ps)
      → trim_right (show_where (p ∷ ps)) ≡ show_where (p ∷ ps)
  unfolding show_where join show_pred trim_right keep_byte
  right_stays p [] (plain, _) =
      let (s, e) = op_head p.op p.value plain.fits in
      trim_right_end p.column (op_text p.op) 32 s (op_end p.op ∙ e)
      ∙ ap (λ x. p.column ++ x) (sym e)
  right_stays p (q ∷ ps) (plain, plains) =
      let rest = show_where (q ∷ ps) in
      let (c, s, e) = where_byte q ps plains.0 in
      let inner =
        trim_right_end (txt " AND ") rest c s (right_stays q ps plains ∙ e)
        ∙ ap (λ x. txt " AND " ++ x) (sym e) in
      trim_right_end (show_pred p) (txt " AND " ++ rest) 32 (txt "AND " ++ rest) inner

  trim_where :
      (p : Predicate) (ps : List Predicate)
      → All (IsPlain u) (p ∷ ps)
      → trim_space u (show_where (p ∷ ps)) ≡ show_where (p ∷ ps)
  trim_where p ps (plain, plains) =
      let (t, e) = where_head p ps in
      let left : trim_left (show_where (p ∷ ps)) ≡ show_where (p ∷ ps) =
        rw e (left_stays u p.column t plain.word plain.valid) in
      trim_of u (show_where (p ∷ ps)) (ascii_where (p ∷ ps) (plain, plains))
      ∙ ap trim_right left
      ∙ right_stays p ps (plain, plains)

  parts_read :
      (ps : List Predicate)
      → All (IsPlain u) ps
      → parse_parts u (map show_pred ps) (args_of ps) ≡ ok ps
  unfolding parse_parts args_of show_pred
  parts_read [] plain = refl
  parts_read (p ∷ ps) (plain, plains) = rw (
    part_reads u p.column plain.word plain.valid p.op p.value (args_of ps) plain.fits,
    parts_read ps plains,
  )

  -- ParseWhere reads back every clause of the grammar that its comment names. Print predicates,
  -- each a valid column of ASCII letters, digits and underscores with = ?, != ?, IS NULL or IS NOT
  -- NULL behind it, and join them by AND: on the clause and the values of the predicates, in their
  -- order, ParseWhere returns just the filter of these predicates.
  pub parse_where-show_where :
      (p : Predicate) (ps : List Predicate)
      → All (IsPlain u) (p ∷ ps)
      → parse_where u (show_where (p ∷ ps)) (args_of (p ∷ ps)) ≡ ok (record { preds = p ∷ ps })
  unfolding parse_where split_and ◌=t◌
  parse_where-show_where p ps plain =
      let clause = show_where (p ∷ ps) in
      let (c, s, e) = where_byte p ps plain.0 in
      let some_byte : (clause =t []) ≡ false = rw e in
      let up = upper_of u clause (ascii_where (p ∷ ps) plain) in
      rw (
        trim_where p ps plain,
        some_byte,
        up,
        split_reads (suc (length (map upper_byte clause))) p ps plain
            (omega (arith, length_upper clause)),
        parts_read (p ∷ ps) plain,
      )
