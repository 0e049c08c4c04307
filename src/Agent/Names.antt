-- ===== src/Agent/Names.antt =====
-- The invariant of the profiles: each under its own id, fit for the file, and no two of one name.
use acp_orchestrator.Common.{
  ◌≡◌, refl, Bool, false, ◌||◌, Text, [], ◌∷◌, none, some, any, arith, Bool-cases, inl, inr, ◌==◌,
  ==_iff, text_eq, All,
}
use acp_orchestrator.Common.Assoc.{Assoc, remove, All-remove}
use acp_orchestrator.Common.Attempt.{done}
use acp_orchestrator.Agent.Profiles.{AgentProfile, text_ltb, place, tree_insert, has_other_named}
use acp_orchestrator.Agent.Operations.{validate_stored_profile}
use acp_orchestrator.Agent.Tree.{Distinct, remove-Distinct, tree_insert-Distinct, All-tree_insert}

abbrev pub Profiles : Type 0
Profiles = Assoc Text AgentProfile

abbrev pub Entry : Text × AgentProfile → Type 0
Entry e = (e.1.id ≡ e.0) × (validate_stored_profile e.1 ≡ done tt)

-- No later profile has the name of an earlier one.
abbrev pub NamesApart : Profiles → Type 0
NamesApart [] = Unit
NamesApart ((k, p) ∷ m) = (any (λ e. e.1.name == p.name) m ≡ false) × NamesApart m

pub record WellFormed (m : Profiles) : Type 0 where
  pub entries : All Entry m
  pub distinct : Distinct m
  pub names : NamesApart m

any-remove :
    (f : Text × AgentProfile → Bool) (k : Text) (m : Profiles)
    → any f m ≡ false
    → any f (remove k m) ≡ false
unfolding remove
any-remove f k [] h = refl
any-remove f k ((j, p) ∷ m) h = ground (arith, any-remove f k m)

any-place :
    (f : Text × AgentProfile → Bool) (k : Text) (p : AgentProfile) (m : Profiles)
    → any f (place k p m) ≡ (f (k, p) || any f m)
unfolding place
any-place f k p [] = refl
any-place f k p ((j, q) ∷ m) = ground (arith, any-place f k p m)

remove-NamesApart : (k : Text) (m : Profiles) → NamesApart m → NamesApart (remove k m)
unfolding remove
remove-NamesApart k [] h = tt
remove-NamesApart k ((j, p) ∷ m) h = elim (Bool-cases (j == k)) [
  | inl hit ↦ rw hit (remove-NamesApart k m h.1)
  | inr miss ↦ rw miss (any-remove (λ e. e.1.name == p.name) k m h.0, remove-NamesApart k m h.1)
]

place-NamesApart :
    (k : Text) (p : AgentProfile) (m : Profiles)
    → any (λ e. e.1.name == p.name) m ≡ false
    → NamesApart m
    → NamesApart (place k p m)
unfolding place
place-NamesApart k p [] free h = (refl, tt)
place-NamesApart k p ((j, q) ∷ m) free h = elim (Bool-cases (text_ltb k j)) [
  | inl before ↦ rw before (free, h)
  | inr behind ↦ rw behind (
    ground (
      arith,
      any-place (λ e. e.1.name == q.name) k p m,
      ==_iff p.name q.name,
      ==_iff q.name p.name,
      h.0,
    ),
    place-NamesApart k p m (ground arith) h.1,
  )
]

-- What has a name after an insertion had it before, or is what was inserted.
pub any-tree_insert :
    (f : Text × AgentProfile → Bool) (k : Text) (p : AgentProfile) (m : Profiles)
    → f (k, p) ≡ false
    → any f m ≡ false
    → any f (tree_insert k p m) ≡ false
unfolding tree_insert
any-tree_insert f k p m here there = ground (arith, any-place f k p (remove k m), any-remove f k m)

-- A name that no profile but the one at `k` has is free once that one is gone.
has_other_named-remove :
    (k name : Text) (m : Profiles)
    → has_other_named m (some k) name ≡ false
    → any (λ e. e.1.name == name) (remove k m) ≡ false
unfolding has_other_named remove
has_other_named-remove k name [] h = refl
has_other_named-remove k name ((j, q) ∷ m) h = ground (arith, has_other_named-remove k name m)

has_other_named-none :
    (k name : Text) (m : Profiles)
    → has_other_named m none name ≡ false
    → any (λ e. e.1.name == name) (remove k m) ≡ false
unfolding has_other_named
has_other_named-none k name m h = any-remove (λ e. e.1.name == name) k m h

pub []-WellFormed : WellFormed []
[]-WellFormed = record { entries = tt; distinct = tt; names = tt }

pub remove-WellFormed : (k : Text) (m : Profiles) → WellFormed m → WellFormed (remove k m)
remove-WellFormed k m h = record {
  entries = All-remove Entry k m h.entries;
  distinct = remove-Distinct k m h.distinct;
  names = remove-NamesApart k m h.names;
}

-- The two ways in which `ensure_unique_profile_name` lets a name in.
pub data Free (m : Profiles) (k name : Text) : Type 0 where
  new : has_other_named m none name ≡ false → Free m k name
  own : has_other_named m (some k) name ≡ false → Free m k name

Free-removed :
    (m : Profiles) (k name : Text)
    → Free m k name
    → any (λ e. e.1.name == name) (remove k m) ≡ false
Free-removed m k name (Free.new h) = has_other_named-none k name m h
Free-removed m k name (Free.own h) = has_other_named-remove k name m h

pub tree_insert-WellFormed :
    (k : Text) (p : AgentProfile) (m : Profiles)
    → Entry (k, p)
    → Free m k p.name
    → WellFormed m
    → WellFormed (tree_insert k p m)
unfolding tree_insert
tree_insert-WellFormed k p m entry free h = record {
  entries = All-tree_insert Entry k p m entry h.entries;
  distinct = tree_insert-Distinct k p m h.distinct;
  names =
      place-NamesApart k p (remove k m) (Free-removed m k p.name free)
        (remove-NamesApart k m h.names);
}
