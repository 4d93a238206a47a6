-- ===== src/Shape/Filter/Parse/Shown.antt =====
-- The clauses of the grammar that the comment of ParseWhere names, printed, and what the text
-- functions do to them.
use tether.Prelude.{
  ℕ, suc, ◌+◌, ◌<◌, true, false, List, [], ◌∷◌, ◌++◌, map, Text, txt, ◌=t◌, ok, ◌≡◌, ◌≢◌, refl, sym,
  ap, ◌∙◌, if◌then◌else◌, last?, ◌==◌, arith, All, Bool-cases, inl, inr, Unicode, is_ascii,
  upper_byte, to_upper, trim_left, trim_right, trim_space, has_suffix,
}
use mathlib.Core.List.{map-append}
use tether.Shape.Filter.Parse.{validate_ident}
use tether.Shape.Filter.Parse.Words.{
  is_word, is_ascii-append, is_ascii-word, space_not_upper, suffix_split, trim_right_end,
  trim_right_blank, trim_left_word,
}
use tether.Shape.Filter.{Predicate, PredOp, op_eq, op_ne, op_is_null, op_is_not_null, bad_op}
use tether.Value.{Value, nil, join}

-- The clause of a predicate, behind its column.
unfoldable pub op_text : PredOp → Text
op_text op_eq = txt " = ?"
op_text op_ne = txt " != ?"
op_text op_is_null = txt " IS NULL"
op_text op_is_not_null = txt " IS NOT NULL"
op_text bad_op = []

unfoldable pub show_pred : Predicate → Text
show_pred p = p.column ++ op_text p.op

-- The predicates as a clause.
unfoldable pub show_where : List Predicate → Text
show_where ps = join (txt " AND ") (map show_pred ps)

-- A test for null holds no value.
abbrev pub Fits : PredOp → Value → Type 0
Fits op_eq v = Unit
Fits op_ne v = Unit
Fits op_is_null v = v ≡ nil
Fits op_is_not_null v = v ≡ nil
Fits bad_op v = ⊥

-- The predicate's column is an ASCII identifier, and its operator one of the four.
pub record IsPlain (u : Unicode) (p : Predicate) : Type 0 where
  pub word : is_word p.column ≡ true
  pub valid : validate_ident u p.column ≡ ok p.column
  pub fits : Fits p.op p.value

pub is_ascii-op_text : (op : PredOp) → is_ascii (op_text op) ≡ true
unfolding is_ascii op_text
is_ascii-op_text op_eq = refl
is_ascii-op_text op_ne = refl
is_ascii-op_text op_is_null = refl
is_ascii-op_text op_is_not_null = refl
is_ascii-op_text bad_op = refl

-- How many spaces a text has.
unfoldable pub spaces : Text → ℕ
spaces [] = 0
spaces (c ∷ s) = let n = spaces s in if c == 32 then suc n else n

spaces-append : (s t : Text) → spaces (s ++ t) ≡ spaces s + spaces t
unfolding spaces
spaces-append [] t = omega arith
spaces-append (c ∷ s) t = ground (arith, spaces-append s t)

spaces-upper : (w : Text) → is_word w ≡ true → spaces (map upper_byte w) ≡ 0
unfolding spaces
spaces-upper w hw = go (map upper_byte w) (space_not_upper w hw)
  where
    go : (s : Text) → All (λ c. (32 == c) ≡ false) s → spaces s ≡ 0
    go [] h = refl
    go (c ∷ s) (h, hs) = ground (arith, go s hs)

-- A name in upper case does not help a text to end in a suffix with more spaces.
pub few_spaces :
    (suf w t : Text)
    → is_word w ≡ true
    → spaces t < spaces suf
    → has_suffix suf (map upper_byte w ++ t) ≡ false
few_spaces suf w t hw few = elim (Bool-cases (has_suffix suf (map upper_byte w ++ t))) [
  | inr e ↦ e
  | inl e ↦
      let (x, e') = suffix_split suf (map upper_byte w ++ t) e in
      absurd (
        omega (
          arith,
          ap spaces e',
          spaces-append (map upper_byte w) t,
          spaces-append x suf,
          spaces-upper w hw,
          few,
        ))
]

last-append : (w : Text) (c : ℕ) (s : Text) → last? (w ++ (c ∷ s)) ≡ last? (c ∷ s)
last-append [] c s = refl
last-append (d ∷ []) c s = refl
last-append (d ∷ e ∷ w) c s = last-append (e ∷ w) c s

-- Nor does it help to end in one with another last byte.
pub other_end :
    (w t suf : Text) (c d : ℕ) (s s' : Text)
    → t ≡ c ∷ s
    → suf ≡ d ∷ s'
    → last? t ≢ last? suf
    → has_suffix suf (w ++ t) ≡ false
other_end w t suf c d s s' et es differ = elim (Bool-cases (has_suffix suf (w ++ t))) [
  | inr e ↦ e
  | inl e ↦
      let (x, e') = suffix_split suf (w ++ t) e in
      absurd (
        differ (
          ap last? et
          ∙ sym (last-append w c s)
          ∙ ap (λ y. last? (w ++ y)) (sym et)
          ∙ ap last? e'
          ∙ ap (λ y. last? (x ++ y)) es
          ∙ last-append x d s'
          ∙ ap last? (sym es)))
]

module _ (u : Unicode) where
  pub upper_of : (s : Text) → is_ascii s ≡ true → to_upper u s ≡ map upper_byte s
  unfolding to_upper
  upper_of s h = rw h

  pub trim_of : (s : Text) → is_ascii s ≡ true → trim_space u s ≡ trim_right (trim_left s)
  unfolding trim_space
  trim_of s h = rw h

  pub word_head : (w : Text) → validate_ident u w ≡ ok w → (c : ℕ) × (r : Text) × (w ≡ c ∷ r)
  unfolding validate_ident ◌=t◌
  word_head [] v = cc
  word_head (c ∷ r) v = (c, r, refl)

  pub left_stays :
      (w t : Text) → is_word w ≡ true → validate_ident u w ≡ ok w → trim_left (w ++ t) ≡ w ++ t
  left_stays w t hw v = let (d, r, e) = word_head w v in rw e (trim_left_word d r t (rw e at hw))

  -- A name with text behind it that ends in no space is left as it is by TrimSpace.
  pub trim_show :
      (w t : Text) (c : ℕ) (s : Text)
      → is_word w ≡ true
      → validate_ident u w ≡ ok w
      → is_ascii t ≡ true
      → trim_right t ≡ t
      → t ≡ c ∷ s
      → trim_space u (w ++ t) ≡ w ++ t
  trim_show w t c s hw v ht fixed e =
      trim_of (w ++ t) (is_ascii-append w t (is_ascii-word w hw) ht)
      ∙ ap trim_right (left_stays w t hw v)
      ∙ trim_right_end w t c s (fixed ∙ e)
      ∙ ap (λ x. w ++ x) (sym e)

  -- A name with blank text behind it.
  pub trim_name :
      (w t : Text)
      → is_word w ≡ true
      → validate_ident u w ≡ ok w
      → is_ascii t ≡ true
      → trim_right t ≡ []
      → trim_space u (w ++ t) ≡ w
  trim_name w t hw v ht blank =
      trim_of (w ++ t) (is_ascii-append w t (is_ascii-word w hw) ht)
      ∙ ap trim_right (left_stays w t hw v)
      ∙ trim_right_blank w t hw blank

  pub upper_show :
      (w t : Text)
      → is_word w ≡ true
      → is_ascii t ≡ true
      → to_upper u (w ++ t) ≡ map upper_byte w ++ map upper_byte t
  upper_show w t hw ht =
      upper_of (w ++ t) (is_ascii-append w t (is_ascii-word w hw) ht) ∙ map-append upper_byte w t
