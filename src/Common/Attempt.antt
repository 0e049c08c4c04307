-- ===== src/Common/Attempt.antt =====
-- `Result<A, E>`, with the `?` operator as `and_then`.
use mathlib.Core.Path.{◌≡◌, refl}
use mathlib.Core.Logic.{◌⊎◌, inl, inr}

pub data Attempt {ℓ κ} (E : Type ℓ) (A : Type κ) : Type (ℓ ⊔ κ) where
  done : A → Attempt E A
  failed : E → Attempt E A

module _ {ℓ κ} {E : Type ℓ} {A : Type κ} where
  abbrev pub and_then {μ} : {B : Type μ} → Attempt E A → (A → Attempt E B) → Attempt E B
  and_then (done a) k = k a
  and_then (failed e) k = failed e

  pub Attempt-cases : (r : Attempt E A) → ((a : A) × (r ≡ done a)) ⊎ ((e : E) × (r ≡ failed e))
  Attempt-cases (done a) = inl (a, refl)
  Attempt-cases (failed e) = inr (e, refl)

-- `?` succeeds only behind a success.
pub and_then-done :
    {E A B : Type 0} (r : Attempt E A) (k : A → Attempt E B) (b : B)
    → and_then r k ≡ done b
    → (a : A) × ((r ≡ done a) × (k a ≡ done b))
and_then-done (done a) k b h = (a, (refl, h))
and_then-done (failed e) k b h = cc
