-- ===== src/Common/Update.antt =====
-- A function with one of its values replaced.
use Prim.Native.Nat.{ℕ}
use mathlib.Core.Path.{◌≡◌, refl}
use mathlib.Core.Logic.{◌≢◌, ite, if_pos, if_neg}
use native.Mathlib.Decide.{ℕ_discrete}

module _ {ℓ} {A : Type ℓ} where
  abbrev pub update : (ℕ → A) → ℕ → A → ℕ → A
  update c i a j = ite (ℕ_discrete i j) a (c j)

  pub update_self : (c : ℕ → A) (i : ℕ) (a : A) → update c i a i ≡ a
  update_self c i a = if_pos (ℕ_discrete i i) refl a (c i)

  pub update_eq : (c : ℕ → A) (i j : ℕ) (a : A) → i ≡ j → update c i a j ≡ a
  update_eq c i j a h = if_pos (ℕ_discrete i j) h a (c j)

  pub update_ne : (c : ℕ → A) (i j : ℕ) (a : A) → i ≢ j → update c i a j ≡ c j
  update_ne c i j a h = if_neg (ℕ_discrete i j) h a (c j)
