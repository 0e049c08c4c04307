-- ===== src/Agent/Tree.antt =====
-- `BTreeMap` as a list of entries: what an insertion changes, and the keys, each there once.
use acp_orchestrator.Common.{
  ◌≡◌, refl, ◌∙◌, false, Text, [], ◌∷◌, none, some, arith, Bool-cases, inl, inr, if◌then◌else◌,
  ◌==◌, ==_iff, ==_refl, text_eq, All,
}
use acp_orchestrator.Common.Assoc.{Assoc, get, remove, get-remove, All-remove}
use acp_orchestrator.Agent.Profiles.{text_ltb, place, tree_insert}

module _ {V : Type 0} where
  get-place :
      (k j : Text) (v : V) (m : Assoc Text V)
      → get k m ≡ none
      → get j (place k v m) ≡ (if k == j then some v else get j m)
  unfolding get place
  get-place k j v [] h = refl
  get-place k j v ((i, w) ∷ m) h =
      ground (arith, get-place k j v m, ==_iff i k, ==_iff i j, ==_iff k j)

  pub get-tree_insert :
      (k j : Text) (v : V) (m : Assoc Text V)
      → get j (tree_insert k v m) ≡ (if k == j then some v else get j m)
  unfolding tree_insert
  get-tree_insert k j v m =
      ground (arith, get-place k j v (remove k m), get-remove k j m, get-remove k k m, ==_refl k)

  -- No key stands twice.
  abbrev pub Distinct : Assoc Text V → Type 0
  Distinct [] = Unit
  Distinct ((k, v) ∷ m) = (get k m ≡ none) × Distinct m

  pub remove-Distinct : (k : Text) (m : Assoc Text V) → Distinct m → Distinct (remove k m)
  unfolding remove
  remove-Distinct k [] h = tt
  remove-Distinct k ((j, v) ∷ m) h = elim (Bool-cases (j == k)) [
    | inl hit ↦ rw hit (remove-Distinct k m h.1)
    | inr miss ↦ rw miss (ground (arith, get-remove k j m, h.0), remove-Distinct k m h.1)
  ]

  place-Distinct :
      (k : Text) (v : V) (m : Assoc Text V) → get k m ≡ none → Distinct m → Distinct (place k v m)
  unfolding place get
  place-Distinct k v [] absent h = (refl, tt)
  place-Distinct k v ((j, w) ∷ m) absent h =
      let other : (k == j) ≡ false = ground (arith, ==_iff j k, ==_iff k j) in
      let later : get k m ≡ none = ground (arith, ==_iff j k, ==_iff k j) in
      elim (Bool-cases (text_ltb k j)) [
        | inl before ↦ rw before (absent, h)
        | inr behind ↦
            rw behind (get-place k j v m later ∙ rw other h.0, place-Distinct k v m later h.1)
      ]

  pub tree_insert-Distinct :
      (k : Text) (v : V) (m : Assoc Text V) → Distinct m → Distinct (tree_insert k v m)
  unfolding tree_insert
  tree_insert-Distinct k v m h =
      place-Distinct k v (remove k m) (ground (arith, get-remove k k m, ==_refl k))
        (remove-Distinct k m h)

  All-place :
      (P : Text × V → Type 0) (k : Text) (v : V) (m : Assoc Text V)
      → P (k, v)
      → All P m
      → All P (place k v m)
  unfolding place
  All-place P k v [] p h = (p, tt)
  All-place P k v ((j, w) ∷ m) p h = elim (Bool-cases (text_ltb k j)) [
    | inl before ↦ rw before (p, h)
    | inr behind ↦ rw behind (h.0, All-place P k v m p h.1)
  ]

  pub All-tree_insert :
      (P : Text × V → Type 0) (k : Text) (v : V) (m : Assoc Text V)
      → P (k, v)
      → All P m
      → All P (tree_insert k v m)
  unfolding tree_insert
  All-tree_insert P k v m p h = All-place P k v (remove k m) p (All-remove P k m h)
