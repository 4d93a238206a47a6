-- ===== src/Prelude/Scan.antt =====
-- The functions of Go's packages strings and unicode that the program calls, on the bytes of a
-- text. On text that is not ASCII they go by Unicode's tables, which are a parameter.
use Prim.Native.Nat.{ℕ, suc, ◌-◌}
use mathlib.Core.Bool.{Bool, true, false, ◌&&◌, ◌||◌}
use mathlib.Core.List.{List, [], ◌∷◌, ◌++◌, map}
use mathlib.Core.Option.{Option, none, some}
use tether.Prelude.Strings.{Text, ◌=t◌}
use tether.Prelude.Tests.{ltb, leb, ◌==◌, if◌then◌else◌}

-- strings.ToUpper and strings.TrimSpace on a text that is not ASCII, the runes of such a text, and
-- unicode.IsLetter and unicode.IsDigit of a rune above 127.
pub record Unicode : Type 0 where
  pub upper : Text → Text
  pub trim : Text → Text
  pub decode : Text → List ℕ
  pub letter : ℕ → Bool
  pub digit : ℕ → Bool

unfoldable pub is_ascii : Text → Bool
is_ascii [] = true
is_ascii (c ∷ s) = ltb c 128 && is_ascii s

unfoldable pub upper_byte : ℕ → ℕ
upper_byte c = if leb b'a' c && leb c b'z' then c - 32 else c

-- strings.ToUpper
unfoldable pub to_upper : Unicode → Text → Text
to_upper u s = if is_ascii s then map upper_byte s else u.upper s

-- tab, newline, vertical tab, form feed, carriage return, and the space
unfoldable pub is_space : ℕ → Bool
is_space c = leb 9 c && leb c 13 || c == 32

unfoldable pub trim_left : Text → Text
trim_left [] = []
trim_left (c ∷ s) = let rest = trim_left s in if is_space c then rest else c ∷ s

unfoldable pub keep_byte : ℕ → Text → Text
keep_byte c [] = if is_space c then [] else c ∷ []
keep_byte c (d ∷ s) = c ∷ d ∷ s

unfoldable pub trim_right : Text → Text
unfolding keep_byte
trim_right [] = []
trim_right (c ∷ s) = keep_byte c (trim_right s)

-- strings.TrimSpace
unfoldable pub trim_space : Unicode → Text → Text
trim_space u s = if is_ascii s then trim_right (trim_left s) else u.trim s

-- The runes that `range` visits.
unfoldable pub runes : Unicode → Text → List ℕ
runes u s = if is_ascii s then s else u.decode s

unfoldable pub is_letter : Unicode → ℕ → Bool
is_letter u r =
    if ltb r 128 then leb b'a' r && leb r b'z' || leb b'A' r && leb r b'Z' else u.letter r

unfoldable pub is_digit : Unicode → ℕ → Bool
is_digit u r = if ltb r 128 then leb b'0' r && leb r b'9' else u.digit r

-- strings.HasPrefix
unfoldable pub has_prefix : Text → Text → Bool
has_prefix [] s = true
has_prefix (p ∷ ps) [] = false
has_prefix (p ∷ ps) (c ∷ s) = p == c && has_prefix ps s

-- strings.HasSuffix
unfoldable pub has_suffix : Text → Text → Bool
has_suffix suf [] = suf =t []
has_suffix suf (c ∷ s) = (c ∷ s) =t suf || has_suffix suf s

unfoldable pub later : Option ℕ → Option ℕ
later none = none
later (some i) = some (suc i)

-- strings.Index, with `none` for -1
unfoldable pub index : Text → Text → Option ℕ
unfolding later
index sub [] = if has_prefix sub [] then some 0 else none
index sub (c ∷ s) = let rest = index sub s in if has_prefix sub (c ∷ s) then some 0 else later rest

-- strings.ReplaceAll of one byte
unfoldable pub replace_byte : ℕ → Text → Text → Text
replace_byte c by [] = []
replace_byte c by (d ∷ s) = (if d == c then by else d ∷ []) ++ replace_byte c by s
