-- ===== src/Shape/Filter/Equal.antt =====
-- valuesEqual, numEqual and numEqualFloat of internal/shape/filter.go. A type switch is a match on
-- the value's constructor.
use tether.Prelude.{Bool, true, false, ℕ, ℤ, ◌=z◌, ◌=t◌}
use tether.Value.{
  Value, nil, int, int32, int64, float64, string, bytes, Runtime, sprint, sprint_int, float_eq,
}

-- numEqual
unfoldable pub num_equal : Runtime → ℤ → Value → Bool
num_equal go a (int b) = a =z b
num_equal go a (int32 b) = a =z b
num_equal go a (int64 b) = a =z b
num_equal go a (float64 b) = float_eq (go.round a) b
num_equal go a (string b) = sprint_int a =t b
num_equal go a b = sprint_int a =t sprint go b

-- numEqualFloat: an int32 takes the default case.
unfoldable pub num_equal_float : Runtime → ℕ → Value → Bool
num_equal_float go a (float64 b) = float_eq a b
num_equal_float go a (int b) = float_eq a (go.round b)
num_equal_float go a (int64 b) = float_eq a (go.round b)
num_equal_float go a b = go.sprint_float a =t sprint go b

typed_equal : Runtime → Value → Value → Bool
unfolding num_equal num_equal_float
typed_equal go (int a) b = num_equal go a b
typed_equal go (int32 a) b = num_equal go a b
typed_equal go (int64 a) b = num_equal go a b
typed_equal go (float64 a) b = num_equal_float go a b
typed_equal go (string a) b = sprint go b =t a
typed_equal go (bytes a) b = sprint go b =t a
typed_equal go a b = sprint go a =t sprint go b

-- valuesEqual
unfoldable pub values_equal : Runtime → Value → Value → Bool
unfolding typed_equal
values_equal go nil nil = true
values_equal go nil b = false
values_equal go a nil = false
values_equal go a b = typed_equal go a b
