-- ===== src/Shape/Filter/Parse/Words.antt =====
-- What the text functions do to a column name followed by more text.
use tether.Prelude.{
  ℕ, ◌+◌, Bool, true, false, ◌&&◌, ◌||◌, [], ◌∷◌, ◌++◌, map, none, some, Text, ◌=t◌, =t_refl,
  =t_iff, ◌≡◌, refl, sym, ap, ◌∙◌, length, leb, ◌==◌, ==_iff, arith, All, Bool-cases, inl, inr,
  is_ascii, upper_byte, is_space, trim_left, trim_right, has_prefix, has_suffix, index, keep_byte,
}

-- A byte of an ASCII identifier.
unfoldable pub word_byte : ℕ → Bool
word_byte c =
    leb b'a' c && leb c b'z' || leb b'A' c && leb c b'Z' || leb b'0' c && leb c b'9' || c == b'_'

unfoldable pub is_word : Text → Bool
is_word [] = true
is_word (c ∷ s) = word_byte c && is_word s

pub is_ascii-append :
    (s t : Text) → is_ascii s ≡ true → is_ascii t ≡ true → is_ascii (s ++ t) ≡ true
unfolding is_ascii
is_ascii-append [] t hs ht = ht
is_ascii-append (c ∷ s) t hs ht = ground (arith, is_ascii-append s t)

pub is_ascii-word : (w : Text) → is_word w ≡ true → is_ascii w ≡ true
unfolding is_ascii is_word word_byte
is_ascii-word [] h = refl
is_ascii-word (c ∷ w) h = ground (arith, is_ascii-word w)

-- The bytes of a name, in upper case or not, are not among the bytes of a separator.
abbrev Lacks : ℕ → Text → Type 0
Lacks b s = All (λ c. (b == c) ≡ false) s

pub Lacks-word : (b : ℕ) (w : Text) → word_byte b ≡ false → is_word w ≡ true → Lacks b w
unfolding is_word
Lacks-word b [] hb h = tt
Lacks-word b (c ∷ w) hb h = (ground (arith, ==_iff b c), Lacks-word b w hb (ground arith))

pub space_not_upper : (w : Text) → is_word w ≡ true → Lacks 32 (map upper_byte w)
unfolding is_word word_byte upper_byte
space_not_upper [] h = tt
space_not_upper (c ∷ w) h = (ground arith, space_not_upper w (ground arith))

pub index_past :
    (b i : ℕ) (sub w t : Text)
    → Lacks b w
    → index (b ∷ sub) t ≡ some i
    → index (b ∷ sub) (w ++ t) ≡ some (length w + i)
unfolding index has_prefix
index_past b i sub [] t h e = rw e (ground arith)
index_past b i sub (c ∷ w) t (h, hs) e = ground (arith, index_past b i sub w t hs e)

pub index_nowhere :
    (b : ℕ) (sub w t : Text)
    → Lacks b w
    → index (b ∷ sub) t ≡ none
    → index (b ∷ sub) (w ++ t) ≡ none
unfolding index has_prefix
index_nowhere b sub [] t h e = e
index_nowhere b sub (c ∷ w) t (h, hs) e = ground (arith, index_nowhere b sub w t hs e)

pub has_suffix-append : (suf w : Text) → has_suffix suf (w ++ suf) ≡ true
unfolding has_suffix
has_suffix-append [] [] = unfold ◌=t◌ in refl
has_suffix-append (c ∷ suf) [] = rw (=t_refl (c ∷ suf))
has_suffix-append suf (c ∷ w) = ground (arith, has_suffix-append suf w)

pub suffix_split : (suf s : Text) → has_suffix suf s ≡ true → (w : Text) × (s ≡ w ++ suf)
unfolding has_suffix
suffix_split suf [] h = ([], sym ((=t_iff suf []).0 h))
suffix_split suf (c ∷ s) h = elim (Bool-cases ((c ∷ s) =t suf)) [
  | inl e ↦ ([], (=t_iff (c ∷ s) suf).0 e)
  | inr e ↦ let (w, e') = suffix_split suf s (ground arith) in (c ∷ w, ap (◌∷◌ c) e')
]

keep_inner : (d c : ℕ) (w s : Text) → keep_byte d (w ++ (c ∷ s)) ≡ d ∷ (w ++ (c ∷ s))
unfolding keep_byte
keep_inner d c [] s = refl
keep_inner d c (e ∷ w) s = refl

pub trim_right_end :
    (w t : Text) (c : ℕ) (s : Text) → trim_right t ≡ c ∷ s → trim_right (w ++ t) ≡ w ++ (c ∷ s)
unfolding trim_right
trim_right_end [] t c s h = h
trim_right_end (d ∷ w) t c s h = ap (keep_byte d) (trim_right_end w t c s h) ∙ keep_inner d c w s

keep_word : (d : ℕ) (w : Text) → word_byte d ≡ true → keep_byte d w ≡ d ∷ w
unfolding keep_byte word_byte is_space
keep_word d [] h = ground arith
keep_word d (e ∷ w) h = refl

pub trim_right_blank : (w t : Text) → is_word w ≡ true → trim_right t ≡ [] → trim_right (w ++ t) ≡ w
unfolding trim_right is_word
trim_right_blank [] t hw h = h
trim_right_blank (d ∷ w) t hw h =
    ap (keep_byte d) (trim_right_blank w t (ground arith) h) ∙ keep_word d w (ground arith)

pub trim_left_word :
    (c : ℕ) (w t : Text) → is_word (c ∷ w) ≡ true → trim_left ((c ∷ w) ++ t) ≡ (c ∷ w) ++ t
unfolding trim_left is_word word_byte is_space
trim_left_word c w t h = ground arith
