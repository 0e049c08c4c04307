-- ===== src/Common/Equality.antt =====
-- Boolean equality that decides `≡`, as an interface with instances (Rust's `PartialEq`).
use Prim.Native.Nat.{ℕ}
use mathlib.Core.Path.{◌≡◌, refl}
use mathlib.Core.Logic.{◌↔◌, ◌≢◌}
use mathlib.Core.Bool.{Bool, true, false, ◌&&◌}
use mathlib.Core.List.{List, [], ◌∷◌}
use native.Mathlib.Omega.{arith}
use acp_orchestrator.Common.Tests.{nat_eqb, nat_eqb_iff}

pub record PartialEq {ℓ} (T : Type ℓ) : Type ℓ where
  pub test : T → T → Bool
  pub decides : (x y : T) → (test x y ≡ true) ↔ (x ≡ y)

infix 50 ◌==◌
abbrev pub ◌==◌ {ℓ} : {T : Type ℓ} ⦃same : PartialEq T⦄ → T → T → Bool
◌==◌ ⦃same⦄ x y = same.test x y

pub ==_iff {ℓ} : {T : Type ℓ} ⦃same : PartialEq T⦄ (x y : T) → ((x == y) ≡ true) ↔ (x ≡ y)
==_iff ⦃same⦄ x y = same.decides x y

pub ==_refl {ℓ} : {T : Type ℓ} ⦃same : PartialEq T⦄ (x : T) → (x == x) ≡ true
==_refl x = (==_iff x x).1 refl

pub ==_ne {ℓ} : {T : Type ℓ} ⦃same : PartialEq T⦄ (x y : T) → x ≢ y → (x == y) ≡ false
==_ne x y h = ground (arith, ==_iff x y)

-- Two lists by their elements, from the front.
unfoldable pub list_eqb {ℓ} : {T : Type ℓ} ⦃same : PartialEq T⦄ → List T → List T → Bool
list_eqb [] [] = true
list_eqb (x ∷ xs) (y ∷ ys) = x == y && list_eqb xs ys
list_eqb _ _ = false

pub list_eqb_iff {ℓ} :
    {T : Type ℓ} ⦃same : PartialEq T⦄ (xs ys : List T) → (list_eqb xs ys ≡ true) ↔ (xs ≡ ys)
unfolding list_eqb
list_eqb_iff [] [] = ground arith
list_eqb_iff [] (y ∷ ys) = ground arith
list_eqb_iff (x ∷ xs) [] = ground arith
list_eqb_iff (x ∷ xs) (y ∷ ys) = ground (arith, ==_iff x y, list_eqb_iff xs ys)

instance abbrev pub list_eq {ℓ} : {T : Type ℓ} ⦃same : PartialEq T⦄ → PartialEq (List T)
list_eq = record { test = list_eqb; decides = list_eqb_iff }

instance abbrev pub nat_eq : PartialEq ℕ
nat_eq = record { test = nat_eqb; decides = nat_eqb_iff }
