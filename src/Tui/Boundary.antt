-- ===== src/Tui/Boundary.antt =====
-- Byte offsets that lie on a boundary of characters, for crates/acp-cli/src/tui/app.rs.
use acp_orchestrator.Common.{
  ℕ, ◌+◌, ◌≤◌, ◌≡◌, refl, sym, ap, Text, [], ◌∷◌, ◌++◌, some, arith, inl, inr, Option-cases, ==_iff,
  nat_eq,
}
use acp_orchestrator.Tui.Utf8.{len_utf8, len, split_bytes, without_last, rsplit_once}

pub record Boundary (s : Text) (n : ℕ) : Type 0 where
  pub before : Text
  pub after : Text
  pub parts : s ≡ before ++ after
  pub offset : n ≡ len before

pub len_utf8-pos : (c : ℕ) → 1 ≤ len_utf8 c
unfolding len_utf8
len_utf8-pos c = ground arith

pub len-append : (a b : Text) → len (a ++ b) ≡ len a + len b
unfolding len
len-append [] b = omega arith
len-append (c ∷ a) b = omega (arith, len-append a b)

pub split_bytes-append : (a b : Text) → split_bytes (len a) (a ++ b) ≡ some (a, b)
unfolding split_bytes len
split_bytes-append [] [] = refl
split_bytes-append [] (c ∷ b) = refl
split_bytes-append (c ∷ a) b = ground (arith, len_utf8-pos c, split_bytes-append a b)

pub append-nil : (s : Text) → s ++ [] ≡ s
append-nil [] = refl
append-nil (c ∷ s) = ap (◌∷◌ c) (append-nil s)

pub append_assoc : (a b c : Text) → (a ++ b) ++ c ≡ a ++ (b ++ c)
append_assoc [] b c = refl
append_assoc (x ∷ a) b c = ap (◌∷◌ x) (append_assoc a b c)

pub whole : (s : Text) → Boundary s (len s)
whole s = record { before = s; after = []; parts = sym (append-nil s); offset = refl }

-- The last character of a text, if any, stands behind the rest of it.
pub last_part : (a : Text) → (z : Text) × (a ≡ without_last a ++ z)
unfolding without_last
last_part [] = ([], refl)
last_part (c ∷ []) = (c ∷ [], refl)
last_part (c ∷ d ∷ s) = let (z, e) = last_part (d ∷ s) in (z, ap (◌∷◌ c) e)

pub rsplit_once-parts :
    (sep : ℕ) (s : Text) {x y : Text} → rsplit_once sep s ≡ some (x, y) → s ≡ x ++ sep ∷ y
unfolding rsplit_once
rsplit_once-parts sep [] e = cc
rsplit_once-parts sep (c ∷ s) {x} {y} e = elim (Option-cases (rsplit_once sep s)) [
  | inr ((u, v), there) ↦ ground (arith, rsplit_once-parts sep s there)
  | inl none_there ↦ ground (arith, ==_iff c sep)
]

-- The offset of the first `before`, which the pieces give, and the pieces at the offset.
pub split_bytes-Boundary :
    (s : Text) (n : ℕ) (b : Boundary s n) → split_bytes n s ≡ some (b.before, b.after)
split_bytes-Boundary s n b = rw (b.offset, b.parts) (split_bytes-append b.before b.after)
