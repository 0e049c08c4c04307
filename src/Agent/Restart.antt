-- ===== src/Agent/Restart.antt =====
-- A store that is opened on the file of another: crates/acp-web-backend/src/agent_profiles.rs.
use acp_orchestrator.Common.{
  ◌≡◌, refl, ap, ◌∙◌, subst, false, Text, List, [], ◌∷◌, Option, none, some, any, arith, Bool-cases,
  inl, inr, All, if◌then◌else◌, ◌==◌, ==_iff, text_eq,
}
use acp_orchestrator.Common.Assoc.{get}
use acp_orchestrator.Common.Attempt.{Attempt, done, failed}
use acp_orchestrator.Agent.Profiles.{
  AgentProfile, AgentProfileStoreError, AgentProfileStore, tree_insert, values, has_other_named,
}
use acp_orchestrator.Agent.Operations.{collect_onto, parsed_profiles, read_profiles, open_store}
use acp_orchestrator.Agent.Tree.{Distinct, get-tree_insert}
use acp_orchestrator.Agent.Names.{
  Profiles, Entry, NamesApart, WellFormed, Free, any-tree_insert, tree_insert-WellFormed,
  []-WellFormed,
}

abbrev override : {A : Type 0} → Option A → Option A → Option A
override (some a) o = some a
override none o = o

override_none : {A : Type 0} (o : Option A) → override o none ≡ o
override_none none = refl
override_none (some a) = refl

-- What the file's profiles make of a map that holds `acc` already.
record Collected (acc m r : Profiles) : Type 0 where
  all : collect_onto acc (values m) ≡ done r
  looks : (k : Text) → get k r ≡ override (get k m) (get k acc)

override_one :
    (k j : Text) (p : AgentProfile) (acc m : Profiles)
    → get k m ≡ none
    → override (get j m) (if k == j then some p else get j acc)
      ≡ override (if k == j then some p else get j m) (get j acc)
override_one k j p acc m absent = elim (Bool-cases (k == j)) [
  | inl hit ↦
      let gone : get j m ≡ none = subst (λ i. get i m ≡ none) ((==_iff k j).0 hit) absent in
      rw hit (rw gone refl)
  | inr miss ↦ rw miss refl
]

collect_one :
    (acc m r : Profiles) (k : Text) (p : AgentProfile)
    → Entry (k, p)
    → get k m ≡ none
    → Collected (tree_insert p.id p acc) m r
    → Collected acc ((k, p) ∷ m) r
unfolding collect_onto get
collect_one acc m r k p entry absent h = record {
  all = rw entry.1 h.all;
  looks = λ j.
      h.looks j
      ∙ ap (override (get j m))
          (get-tree_insert p.id j p acc ∙ ap (λ i. if i == j then some p else get j acc) entry.0)
      ∙ override_one k j p acc m absent;
}

collect : (acc m : Profiles) → All Entry m → Distinct m → (r : Profiles) × Collected acc m r
unfolding collect_onto get
collect acc [] e d = (acc, record { all = refl; looks = λ k. refl })
collect acc ((k, p) ∷ m) e d =
    let (r, h) = collect (tree_insert p.id p acc) m e.1 d.1 in
    (r, collect_one acc m r k p e.0 d.0 h)

-- None of the profiles of `m` has a name that `acc` has.
abbrev Apart : Profiles → Profiles → Type 0
Apart acc m = All (λ e. any (λ x. x.1.name == e.1.name) acc ≡ false) m

Apart-tree_insert :
    (k : Text) (p : AgentProfile) (acc m : Profiles)
    → any (λ e. e.1.name == p.name) m ≡ false
    → Apart acc m
    → Apart (tree_insert k p acc) m
Apart-tree_insert k p acc [] free h = tt
Apart-tree_insert k p acc ((j, q) ∷ m) free h = (
  any-tree_insert (λ x. x.1.name == q.name) k p acc
      (ground (arith, ==_iff p.name q.name, ==_iff q.name p.name)) h.0,
  Apart-tree_insert k p acc m (ground arith) h.1,
)

collect-WellFormed :
    (acc m r : Profiles)
    → WellFormed acc
    → All Entry m
    → NamesApart m
    → Apart acc m
    → collect_onto acc (values m) ≡ done r
    → WellFormed r
unfolding collect_onto has_other_named
collect-WellFormed acc [] r w e n a h = let same : acc ≡ r = cc in subst WellFormed same w
collect-WellFormed acc ((k, p) ∷ m) r w e n a h =
    collect-WellFormed (tree_insert p.id p acc) m r
      (tree_insert-WellFormed p.id p acc (refl, e.0.1) (Free.new a.0) w) e.1 n.1
      (Apart-tree_insert p.id p acc m n.0 a.1) (rw e.0.1 at h)

no_Apart : (m : Profiles) → Apart [] m
no_Apart [] = tt
no_Apart ((k, p) ∷ m) = (refl, no_Apart m)

-- The profile that an opened store has under an id.
abbrev pub looked_up : Text → Attempt AgentProfileStoreError AgentProfileStore → Option AgentProfile
looked_up k (failed e) = none
looked_up k (done self) = get k self.profiles

module _ {Bytes : Type 0} (parse : Bytes → Attempt Text (List AgentProfile)) where
  -- A file of the store's own making is read back, whatever order its entries have.
  pub open_store-values :
      (bytes : Bytes) (m : Profiles)
      → parse bytes ≡ done (values m)
      → WellFormed m
      → (self : AgentProfileStore) × ((open_store parse (some bytes) ≡ done self)
          × (WellFormed self.profiles × ((k : Text) → get k self.profiles ≡ get k m)))
  unfolding open_store read_profiles parsed_profiles get
  open_store-values bytes m parsed w =
      let (r, h) = collect [] m w.entries w.distinct in
      (
        record { profiles = r; poisoned = false },
        (
          rw parsed (rw h.all refl),
          (
            collect-WellFormed [] m r []-WellFormed w.entries w.names (no_Apart m) h.all,
            λ k. h.looks k ∙ override_none (get k m),
          ),
        ),
      )
