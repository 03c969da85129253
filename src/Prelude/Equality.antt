-- ===== src/Prelude/Equality.antt =====
-- Types of which the equality is decidable, for reflect.DeepEqual on plain data.
use native.Mathlib.Decide.{ℕ_discrete}
use mathlib.Core.Path.{◌≡◌, refl}
use mathlib.Core.Bool.{Bool, true, false}
use mathlib.Core.Logic.{inl, inr}
use Prim.Native.String.{String}
use text.Mathlib.Text.{◌==◌}
use text.Mathlib.TextEquality.{eq_iff}
use rpaas_operator.Prelude.Tests.{Bool-cases, clash}
use rpaas_operator.Prelude.Int.{ℤ}

pub string-discrete : Discrete String
string-discrete s t = elim (Bool-cases (s == t)) [
  | inl h ↦ yes ((eq_iff s t).0 h)
  | inr h ↦ no λ e. clash h ((eq_iff s t).1 e)
]

pub ℤ-discrete : Discrete ℤ
ℤ-discrete = hlevel ℕ_discrete

abbrev pub is_yes {ℓ} : {A : Type ℓ} → Dec A → Bool
is_yes (yes _) = true
is_yes (no _) = false

pub yes_is_yes {ℓ} : {A : Type ℓ} (d : Dec A) → A → is_yes d ≡ true
yes_is_yes (yes a) b = refl
yes_is_yes (no n) b = absurd (n b)
