-- ===== src/Common/Assoc.antt =====
-- Maps (`HashMap`, `BTreeMap`) as association lists. The order of entries is arbitrary.
use Prim.Native.Nat.{suc, ◌≤◌, ◌<◌}
use mathlib.Core.Path.{◌≡◌, refl, subst₂}
use mathlib.Core.Option.{Option, none, some, some-injective}
use mathlib.Core.Logic.{inl, inr}
use mathlib.Core.List.{List, [], ◌∷◌}
use native.Mathlib.Omega.{arith}
use acp_orchestrator.Common.Tests.{if◌then◌else◌, Bool-cases}
use acp_orchestrator.Common.Lists.{length, All}
use acp_orchestrator.Common.Equality.{PartialEq, ◌==◌, ==_iff, ==_refl}

abbrev pub Assoc {ℓ κ} : Type ℓ → Type κ → Type (ℓ ⊔ κ)
Assoc K V = List (K × V)

module _ {ℓ κ} {K : Type ℓ} {V : Type κ} ⦃e : PartialEq K⦄ where
  unfoldable pub get : K → Assoc K V → Option V
  get k [] = none
  get k ((j, v) ∷ m) = if j == k then some v else get k m

  unfoldable pub remove : K → Assoc K V → Assoc K V
  remove k [] = []
  remove k ((j, v) ∷ m) = if j == k then remove k m else (j, v) ∷ remove k m

  unfoldable pub insert : K → V → Assoc K V → Assoc K V
  unfolding remove
  insert k v m = (k, v) ∷ remove k m

  pub get-remove :
      (k j : K) (m : Assoc K V) → get j (remove k m) ≡ (if k == j then none else get j m)
  unfolding get remove
  get-remove k j [] = ground arith
  get-remove k j ((i, v) ∷ m) = ground (arith, get-remove k j m, ==_iff i k, ==_iff i j, ==_iff k j)

  pub get-insert :
      (k j : K) (v : V) (m : Assoc K V)
      → get j (insert k v m) ≡ (if k == j then some v else get j m)
  unfolding get insert
  get-insert k j v m = ground (arith, get-remove k j m)

  pub length-remove-le : (k : K) (m : Assoc K V) → length (remove k m) ≤ length m
  unfolding remove
  length-remove-le k [] = omega arith
  length-remove-le k ((j, v) ∷ m) = ground (arith, length-remove-le k m)

  -- Removing a key that is there makes the map smaller: the measure of a draining loop.
  pub length-remove-lt :
      (k : K) (m : Assoc K V) {v : V} → get k m ≡ some v → length (remove k m) < length m
  unfolding get remove
  length-remove-lt k [] h = cc
  length-remove-lt k ((j, w) ∷ m) {v} h =
      ground (arith, length-remove-le k m, length-remove-lt k m {v = v})

  pub All-remove {μ} : (P : K × V → Type μ) (k : K) (m : Assoc K V) → All P m → All P (remove k m)
  unfolding remove
  All-remove P k [] h = tt
  All-remove P k ((j, v) ∷ m) h = ground (arith, All-remove P k m h.1)

  pub All-get {μ} :
      (P : K → V → Type μ) (k : K) (m : Assoc K V) {v : V}
      → All (λ b. P b.0 b.1) m
      → get k m ≡ some v
      → P k v
  unfolding get
  All-get P k [] h eq = cc
  All-get P k ((j, w) ∷ m) {v} h eq = elim (Bool-cases (j == k)) [
    | inl hit ↦ subst₂ P ((==_iff j k).0 hit) (some-injective w v (rw hit at eq)) h.0
    | inr miss ↦ All-get P k m h.1 (rw miss at eq)
  ]

  -- A map that has nothing at any key has no entry.
  pub none_everywhere : (m : Assoc K V) → ((k : K) → get k m ≡ none) → m ≡ []
  unfolding get
  none_everywhere [] h = refl
  none_everywhere ((k, v) ∷ m) h = cc (rw (==_refl k) at (h k))

  pub length-insert-le : (k : K) (v : V) (m : Assoc K V) → length (insert k v m) ≤ suc (length m)
  unfolding insert
  length-insert-le k v m = omega (arith, length-remove-le k m)
