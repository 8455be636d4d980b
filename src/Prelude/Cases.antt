-- ===== src/Prelude/Cases.antt =====
-- A property of a conditional from its branches.
use mathlib.Core.Bool.{Bool, true, false}
use mathlib.Core.Option.{Option, none, some}
use mathlib.Core.Path.{◌≡◌, refl}
use aqua_sim_ng.Prelude.Tests.{if◌then◌else◌}

module _ {ℓ κ} {A : Type ℓ} (P : A → Type κ) where
  pub if_both : (b : Bool) (x y : A) → P x → P y → P (if b then x else y)
  if_both true x y p q = p
  if_both false x y p q = q

  pub if_cases :
      (b : Bool) (x y : A) → (b ≡ true → P x) → (b ≡ false → P y) → P (if b then x else y)
  if_cases true x y p q = p refl
  if_cases false x y p q = q refl

  pub option_both {μ} :
      {B : Type μ} (x : Option B) (y : A) (f : B → A)
      → (x ≡ none → P y)
      → ((b : B) → x ≡ some b → P (f b))
      → P (elim x [ none ↦ y | some b ↦ f b ])
  option_both none y f p q = p refl
  option_both (some b) y f p q = q b refl
