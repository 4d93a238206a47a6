-- ===== src/Prelude/Strings.antt =====
-- A Go string is the list of its bytes. `txt` reads a literal, ASCII here.
use Prim.Native.Char.{code}
use Prim.Native.Nat.{ℕ}
use Prim.Native.String.{String}
use mathlib.Core.Path.{◌≡◌, refl}
use mathlib.Core.Logic.{◌↔◌}
use mathlib.Core.Bool.{Bool, true, false, ◌&&◌}
use mathlib.Core.List.{List, [], ◌∷◌}
use native.Mathlib.Omega.{arith}
use native.Mathlib.Decide.{ℕ_discrete}
use tether.Prelude.Tests.{◌==◌}

abbrev pub Text : Type 0
Text = List ℕ

abbrev pub txt : String → Text
txt String.[] = []
txt (String.◌∷◌ c s) = code c ∷ txt s

infix 50 ◌=t◌
unfoldable pub ◌=t◌ : Text → Text → Bool
[] =t [] = true
[] =t (b ∷ t) = false
(a ∷ s) =t [] = false
(a ∷ s) =t (b ∷ t) = a == b && s =t t

eq_of_=t : (s t : Text) → (s =t t) ≡ true → s ≡ t
unfolding ◌=t◌
eq_of_=t [] [] h = refl
eq_of_=t [] (b ∷ t) h = cc
eq_of_=t (a ∷ s) [] h = cc
eq_of_=t (a ∷ s) (b ∷ t) h = ground (arith, eq_of_=t s t)

pub =t_refl : (s : Text) → (s =t s) ≡ true
unfolding ◌=t◌
=t_refl [] = refl
=t_refl (a ∷ s) = ground (arith, =t_refl s)

pub =t_iff : (s t : Text) → ((s =t t) ≡ true) ↔ (s ≡ t)
=t_iff s t = (eq_of_=t s t, λ p. rw p (=t_refl t))

pub Text-discrete : Discrete Text
Text-discrete = hlevel ℕ_discrete
