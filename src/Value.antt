-- ===== src/Value.antt =====
-- Values of Go's type `any` as they stand in a row, rows, and the parts of fmt, strings and
-- float64 that the shape package uses.
use tether.Prelude.{
  ℕ, zero, suc, ◌+◌, ◌/◌, ◌%◌, ◌^◌, Bool, not, ◌&&◌, ◌||◌, List, [], ◌∷◌, ◌++◌, Option, none, some,
  ◌≡◌, refl, ap, Text, txt, ℤ, pos, negsuc, ltb, ◌==◌, if◌then◌else◌, Dict, lookup, map,
}

-- `int`, `int32` and `int64` hold their value; `float64` its 64 bits (math.Float64bits); `other` is
-- a value of any other dynamic type (bool, time.Time, map, ...), named by a number.
pub data Value : Type 0 where
  nil : Value
  int int32 int64 : ℤ → Value
  float64 : ℕ → Value
  string : Text → Value
  bytes : List ℕ → Value
  other : ℕ → Value

-- What the runtime decides: how fmt prints a float64 and a value of another type, and the
-- rounding of an int64 to float64.
pub record Runtime : Type 0 where
  pub sprint_float : ℕ → Text
  pub sprint_other : ℕ → Text
  pub round : ℤ → ℕ

abbrev pub Row : Type 0
Row = Dict Value

-- The decimal digits of n before acc; n + 1 rounds of fuel are enough.
unfoldable pub decimal_from : ℕ → ℕ → Text → Text
decimal_from zero n acc = acc
decimal_from (suc f) n acc =
    let rest = decimal_from f (n / 10) ((b'0' + n % 10) ∷ acc) in
    if ltb n 10 then (b'0' + n) ∷ acc else rest

-- fmt's %d
unfoldable pub decimal : ℕ → Text
unfolding decimal_from
decimal n = decimal_from (suc n) n []

unfoldable pub sprint_int : ℤ → Text
unfolding decimal
sprint_int (pos n) = decimal n
sprint_int (negsuc n) = b'-' ∷ decimal (suc n)

-- strings.Join
unfoldable pub join : Text → List Text → Text
join sep [] = []
join sep (s ∷ []) = s
join sep (s ∷ t ∷ rest) = s ++ (sep ++ join sep (t ∷ rest))

-- fmt.Sprint of one operand
unfoldable pub sprint : Runtime → Value → Text
unfolding decimal sprint_int join
sprint go nil = txt "<nil>"
sprint go (int n) = sprint_int n
sprint go (int32 n) = sprint_int n
sprint go (int64 n) = sprint_int n
sprint go (float64 x) = go.sprint_float x
sprint go (string s) = s
sprint go (bytes b) = b'[' ∷ (join (txt " ") (map decimal b) ++ txt "]")
sprint go (other x) = go.sprint_other x

-- The bits of a NaN: all ones in the exponent and a fraction that is not zero.
unfoldable pub is_nan : ℕ → Bool
is_nan x = ((x / 2 ^ 52) % 2 ^ 11 == 2047) && not (x % 2 ^ 52 == 0)

-- `==` of float64: NaN differs from all, and the two zeros are equal.
unfoldable pub float_eq : ℕ → ℕ → Bool
unfolding is_nan
float_eq x y =
    not (is_nan x) && not (is_nan y) && (x == y || ((x % 2 ^ 63 == 0) && (y % 2 ^ 63 == 0)))

-- The loop `for k, v := range row { out[k] = v }` into a new map.
unfoldable pub copy_row : Row → Row
copy_row [] = []
copy_row ((k, v) ∷ r) = (k, v) ∷ copy_row r

pub copy_row_lem : (r : Row) → copy_row r ≡ r
unfolding copy_row
copy_row_lem [] = refl
copy_row_lem ((k, v) ∷ r) = ap (◌∷◌ (k, v)) (copy_row_lem r)

-- cloneRow, where a nil map is `none`.
unfoldable pub clone_row : Option Row → Option Row
clone_row none = none
clone_row (some r) = some (copy_row r)

pub clone_row_lem : (r : Option Row) → clone_row r ≡ r
unfolding clone_row
clone_row_lem none = refl
clone_row_lem (some r) = ap some (copy_row_lem r)

-- row[col] and whether it is present; a nil map has no columns.
unfoldable pub column : Text → Option Row → Option Value
unfolding lookup
column c none = none
column c (some r) = lookup c r
