-- ===== src/Store/Order.antt =====
-- The order and the content of the lists of sessions in crates/acp-web-backend/src/sessions.rs.
use native.Mathlib.Decide.{dec_lt}
use acp_orchestrator.Common.{
  text_eq, ℕ, ◌<◌, ◌⊎◌, ◌≡◌, refl, ◌∙◌, Bool, true, false, Text, List, [], ◌∷◌, arith, inl, inr,
  map, length, Bool-cases, filter,
}
use acp_orchestrator.Contracts.Sessions.{SessionListItem}
use acp_orchestrator.Store.Recency.{
  compare_text, compare_session_entries, is_gt, insert_entry, sort_session_entries,
  list_owned_sessions, entries_where,
}
use acp_orchestrator.Store.Owned.{owned_entries, entries_where-eq-owned_entries}
use acp_orchestrator.Store.Types.{SessionStore}
use acp_orchestrator.Store.Access.{owner_matches}

-- A text is not behind another in the dictionary.
abbrev pub InDictionaryOrder : Text → Text → Type 0
InDictionaryOrder [] ys = Unit
InDictionaryOrder (x ∷ xs) [] = ⊥
InDictionaryOrder (x ∷ xs) (y ∷ ys) = (x < y) ⊎ ((x ≡ y) × InDictionaryOrder xs ys)

-- An entry may stand in front of another: it was touched later; or the orders are equal, and its
-- time is later; or the times are equal too, and its id is not behind.
abbrev pub MayPrecede : ℕ × SessionListItem → ℕ × SessionListItem → Type 0
MayPrecede x y =
    (y.0 < x.0)
    ⊎ ((x.0 ≡ y.0)
        × ((y.1.last_activity_at < x.1.last_activity_at)
            ⊎ ((x.1.last_activity_at ≡ y.1.last_activity_at) × InDictionaryOrder x.1.id y.1.id)))

abbrev pub Heads : ℕ × SessionListItem → List (ℕ × SessionListItem) → Type 0
Heads x [] = Unit
Heads x (y ∷ ys) = MayPrecede x y

-- Each entry may stand in front of the next.
abbrev pub Sorted : List (ℕ × SessionListItem) → Type 0
Sorted [] = Unit
Sorted (x ∷ xs) = Heads x xs × Sorted xs

text_in_order : (a b : Text) → is_gt (compare_text a b) ≡ false → InDictionaryOrder a b
unfolding compare_text
text_in_order [] [] e = tt
text_in_order [] (y ∷ ys) e = tt
text_in_order (x ∷ xs) [] e = cc
text_in_order (x ∷ xs) (y ∷ ys) e = elim (dec_lt x y) [
  | yes lt ↦ inl lt
  | no ge ↦ elim (dec_lt y x) [
    | yes gt ↦ absurd (ground arith)
    | no le ↦ inr (omega arith, text_in_order xs ys (ground arith))
  ]
]

entry_in_order :
    (x y : ℕ × SessionListItem) → is_gt (compare_session_entries x y) ≡ false → MayPrecede x y
unfolding compare_session_entries
entry_in_order x y e = elim (dec_lt y.0 x.0) [
  | yes later ↦ inl later
  | no ge ↦ elim (dec_lt x.0 y.0) [
    | yes earlier ↦ absurd (ground arith)
    | no le ↦
        let same : x.0 ≡ y.0 = omega arith in
        elim (dec_lt y.1.last_activity_at x.1.last_activity_at) [
          | yes later ↦ inr (same, inl later)
          | no ge' ↦ elim (dec_lt x.1.last_activity_at y.1.last_activity_at) [
            | yes earlier ↦ absurd (ground arith)
            | no le' ↦ inr (same, inr (omega arith, text_in_order x.1.id y.1.id (ground arith)))
          ]
        ]
  ]
]

text_flipped : (a b : Text) → is_gt (compare_text a b) ≡ true → is_gt (compare_text b a) ≡ false
unfolding compare_text
text_flipped [] [] e = refl
text_flipped [] (y ∷ ys) e = cc
text_flipped (x ∷ xs) [] e = refl
text_flipped (x ∷ xs) (y ∷ ys) e = ground (arith, text_flipped xs ys)

flipped :
    (x y : ℕ × SessionListItem)
    → is_gt (compare_session_entries x y) ≡ true
    → is_gt (compare_session_entries y x) ≡ false
unfolding compare_session_entries
flipped x y e = ground (arith, text_flipped x.1.id y.1.id)

inserted-Heads :
    (x y : ℕ × SessionListItem) (ys : List (ℕ × SessionListItem))
    → MayPrecede y x
    → Heads y ys
    → Heads y (insert_entry x ys)
unfolding insert_entry
inserted-Heads x y [] le h = le
inserted-Heads x y (z ∷ zs) le h = elim (Bool-cases (is_gt (compare_session_entries x z))) [
  | inl behind ↦ rw behind h
  | inr before ↦ rw before le
]

inserted-Sorted :
    (x : ℕ × SessionListItem) (ys : List (ℕ × SessionListItem))
    → Sorted ys
    → Sorted (insert_entry x ys)
unfolding insert_entry
inserted-Sorted x [] h = (tt, tt)
inserted-Sorted x (y ∷ ys) h = elim (Bool-cases (is_gt (compare_session_entries x y))) [
  | inl behind ↦ rw behind (
    inserted-Heads x y ys (entry_in_order y x (flipped x y behind)) h.0,
    inserted-Sorted x ys h.1,
  )
  | inr before ↦ rw before (entry_in_order x y before, h)
]

inserted-count :
    (p : ℕ × SessionListItem → Bool) (x : ℕ × SessionListItem) (ys : List (ℕ × SessionListItem))
    → length (filter p (insert_entry x ys)) ≡ length (filter p (x ∷ ys))
unfolding insert_entry
inserted-count p x [] = refl
inserted-count p x (y ∷ ys) = ground (arith, inserted-count p x ys)

counted_head :
    (p : ℕ × SessionListItem → Bool) (x : ℕ × SessionListItem) (xs ys : List (ℕ × SessionListItem))
    → length (filter p xs) ≡ length (filter p ys)
    → length (filter p (x ∷ xs)) ≡ length (filter p (x ∷ ys))
counted_head p x xs ys e = ground arith

-- Sorting the entries puts each in front of one that it may precede, and keeps, for every test, the
-- number of entries that pass it: none is lost, added or doubled.
pub sort_session_entries-lem :
    (xs : List (ℕ × SessionListItem))
    → Sorted (sort_session_entries xs)
      × ((p : ℕ × SessionListItem → Bool)
          → length (filter p (sort_session_entries xs)) ≡ length (filter p xs))
unfolding sort_session_entries
sort_session_entries-lem [] = (tt, λ p. refl)
sort_session_entries-lem (x ∷ xs) =
    let (sorted, count) = sort_session_entries-lem xs in
    (
      inserted-Sorted x _ sorted,
      λ p. inserted-count p x (sort_session_entries xs) ∙ counted_head p x _ xs (count p),
    )

-- list_owned_sessions returns an item for each of the owner's sessions in the map, as often as it
-- is there, and for no other. They are sorted: a larger recent_order comes first, among equal ones
-- a later last_activity_at, and among equal times the id that is first in the dictionary.
pub list_owned_sessions-Sorted :
    (s : SessionStore) (owner : Text)
    → (entries : List (ℕ × SessionListItem)) × (list_owned_sessions s owner
        ≡ map (λ b. b.1) entries)
      × Sorted entries
      × ((p : ℕ × SessionListItem → Bool)
          → length (filter p entries) ≡ length (filter p (owned_entries s owner)))
unfolding list_owned_sessions
list_owned_sessions-Sorted s owner =
    let entries = entries_where (λ h. owner_matches h owner) s in
    let (sorted, count) = sort_session_entries-lem entries in
    (
      sort_session_entries entries,
      refl,
      sorted,
      rw (← (entries_where-eq-owned_entries s owner)) count,
    )
