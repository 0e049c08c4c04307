-- ===== src/Agent/Keeping.antt =====
-- Every call to the store of the profiles keeps its invariant, in memory and in the file:
-- crates/acp-web-backend/src/agent_profiles.rs.
use acp_orchestrator.Common.{
  ◌≡◌, refl, sym, ap, ◌∙◌, subst, Bool, true, false, Text, codes, List, [], ◌∷◌, Option, none, some,
  is_some, Bool-cases, inl, inr, All, if◌then◌else◌, text_eq,
}
use acp_orchestrator.Common.Assoc.{get, remove}
use acp_orchestrator.Common.Attempt.{Attempt, done, failed, and_then, Attempt-cases, and_then-done}
use acp_orchestrator.Agent.Profiles.{
  AgentProfile, UpsertAgentProfileRequest, AgentProfileStoreError, AgentProfileStore, tree_insert,
  values, validate_profile_id, has_other_named, ensure_unique_profile_name, lock_profiles,
}
use acp_orchestrator.Agent.Operations.{
  Trouble, write_error, File, replace, fresh_id, checked_profile, unique_profiles, with_id,
  validate_stored_profile, write_profiles, commit, insert_profile, upsert_checked, upsert_profile,
  insert_fresh, create_checked, create_profile, delete_from, delete_profile,
}
use acp_orchestrator.Agent.Valid.{checked_profile-Checked, validate_stored_profile-Checked}
use acp_orchestrator.Agent.Names.{
  Profiles, WellFormed, remove-WellFormed, Free, tree_insert-WellFormed,
}
use mathlib.Core.Option.{some-injective}
use acp_orchestrator.Agent.Runs.{Call, ValidIds, Generated, Kept, kept, kept_or, perform, run}

unlocked :
    {E A : Type 0} (b : Bool) (e : E) (a c : A) → (if b then failed e else done a) ≡ done c → a ≡ c
unlocked true e a c h = cc
unlocked false e a c h = cc

untested :
    {E A : Type 0} (b : Bool) (e : E) (a c : A)
    → (if b then failed e else done a) ≡ done c
    → b ≡ false
untested true e a c h = cc
untested false e a c h = refl

-- The profiles under the lock are the store's, and the name is free.
unique_profiles-done :
    (self : AgentProfileStore) (allowed : Option Text) (name : Text) (m : Profiles)
    → unique_profiles self allowed name ≡ done m
    → (self.profiles ≡ m) × (has_other_named m allowed name ≡ false)
unfolding unique_profiles lock_profiles ensure_unique_profile_name
unique_profiles-done self allowed name m h =
    let (p, (locked, rest)) = and_then-done (lock_profiles self) _ m h in
    let (u, (unique, same)) = and_then-done (ensure_unique_profile_name p allowed name) _ m rest in
    let p_m : p ≡ m = cc in
    (
      unlocked self.poisoned _ self.profiles p locked ∙ p_m,
      subst (λ q. has_other_named q allowed name ≡ false) p_m
          (untested (has_other_named p allowed name) _ tt u unique),
    )

upserted :
    (id : Text) (request : UpsertAgentProfileRequest) (p : AgentProfile)
    → and_then (validate_profile_id id) (λ u. checked_profile id request) ≡ done p
    → (p.id ≡ id) × (validate_stored_profile p ≡ done tt)
upserted id request p eq =
    let (u, (valid, made)) = and_then-done (validate_profile_id id) _ p eq in
    let checked = checked_profile-Checked id request p made in
    (
      ap (λ q. q.id) (sym checked.same),
      subst (λ q. validate_stored_profile q ≡ done tt)
          (subst (λ q. with_id id q ≡ q) checked.same refl)
          (validate_stored_profile-Checked id id request p checked valid),
    )

fresh_id_valid :
    (m : Profiles) (ids : List Text) (id : Text)
    → ValidIds ids
    → fresh_id m ids ≡ some id
    → validate_profile_id id ≡ done tt
unfolding fresh_id
fresh_id_valid m [] id v h = cc
fresh_id_valid m (i ∷ ids) id v h = elim (Bool-cases (is_some (get i m))) [
  | inl taken ↦ fresh_id_valid m ids id v.1 (rw taken at h)
  | inr new ↦ subst (λ k. validate_profile_id k ≡ done tt) (some-injective i id (rw new at h)) v.0
]

deletable :
    (self : AgentProfileStore) (id : Text) (m : Profiles)
    → WellFormed self.profiles
    → and_then (validate_profile_id id) (λ u. lock_profiles self) ≡ done m
    → WellFormed m
unfolding lock_profiles
deletable self id m h eq =
    let (u, (valid, locked)) = and_then-done (validate_profile_id id) _ m eq in
    subst WellFormed (unlocked self.poisoned _ self.profiles m locked) h

module _ {Bytes : Type 0} (serialize : List AgentProfile → Attempt Text Bytes)
    (parse : Bytes → Attempt Text (List AgentProfile)) where
  -- A file that is not there, or that holds profiles as the store keeps them.
  pub data Sound : File Bytes → Type 0 where
    absent : Sound none
    present :
        (m : Profiles) (bytes : Bytes)
        → parse bytes ≡ done (values m)
        → WellFormed m
        → Sound (some bytes)

  pub record Good (s : Kept Bytes) : Type 0 where
    pub memory : WellFormed s.0.profiles
    pub file : Sound s.1

  module _
      (faithful : (ps : List AgentProfile) (bytes : Bytes)
        → serialize ps ≡ done bytes
        → parse bytes ≡ done ps) where
    replace-Sound :
        (trouble : Option AgentProfileStoreError) (file : File Bytes) (m : Profiles)
        → WellFormed m
        → Sound file
        → (r : Attempt Text Bytes) → serialize (values m) ≡ r
        → Sound (replace trouble file r).0
    unfolding replace
    replace-Sound trouble file m w h (failed e) eq = h
    replace-Sound none file m w h (done bytes) eq =
        Sound.present m bytes (faithful (values m) bytes eq) w
    replace-Sound (some error) file m w h (done bytes) eq = h

    commit-Good :
        {A : Type 0} (trouble : Trouble) (s : Kept Bytes) (m : Profiles) (a : A)
        → WellFormed m
        → Good s
        → Good (kept (commit serialize trouble s.0 s.1 m a))
    unfolding commit write_profiles
    commit-Good trouble s m a w h = record {
      memory = w;
      file = replace-Sound (write_error trouble) s.1 m w h.file (serialize (values m)) refl;
    }

    insert_profile-Good :
        (trouble : Trouble) (s : Kept Bytes) (p : AgentProfile) (m : Profiles)
        → s.0.profiles ≡ m
        → validate_stored_profile p ≡ done tt
        → Free m p.id p.name
        → Good s
        → Good (kept (insert_profile serialize trouble s.0 s.1 p m))
    unfolding insert_profile
    insert_profile-Good trouble s p m same valid free h =
        commit-Good trouble s (tree_insert p.id p m) p
          (tree_insert-WellFormed p.id p m (refl, valid) free (subst WellFormed same h.memory)) h

    upsert_checked-Good :
        (trouble : Trouble) (s : Kept Bytes) (id : Text) (request : UpsertAgentProfileRequest)
        (r : Attempt AgentProfileStoreError AgentProfile)
        → and_then (validate_profile_id id) (λ u. checked_profile id request) ≡ r
        → Good s
        → Good (kept (upsert_checked serialize trouble s.0 s.1 id r))
    unfolding upsert_checked
    upsert_checked-Good trouble s id request (failed e) eq h = h
    upsert_checked-Good trouble s id request (done p) eq h =
        elim (Attempt-cases (unique_profiles s.0 (some id) p.name)) [
          | inr (e, refused) ↦ rw (refused, upsert_checked) h
          | inl (m, unique) ↦
              let (same, free) = unique_profiles-done s.0 (some id) p.name m unique in
              let (own, valid) = upserted id request p eq in
              rw (unique, upsert_checked)
                (insert_profile-Good trouble s p m same valid
                  (subst (λ k. Free m k p.name) (sym own) (Free.own free)) h)
        ]

    insert_fresh-Good :
        (trouble : Trouble) (s : Kept Bytes) (p : AgentProfile) (m : Profiles) (o : Option Text)
        → s.0.profiles ≡ m
        → ((id : Text) → o ≡ some id → validate_stored_profile (with_id id p) ≡ done tt)
        → has_other_named m none p.name ≡ false
        → Good s
        → Good (kept_or s (insert_fresh serialize trouble s.0 s.1 p m o))
    unfolding insert_fresh
    insert_fresh-Good trouble s p m none same valid free h = h
    insert_fresh-Good trouble s p m (some id) same valid free h =
        insert_profile-Good trouble s (with_id id p) m same (valid id refl) (Free.new free) h

    create_checked-Good :
        (trouble : Trouble) (s : Kept Bytes) (ids : List Text) (request : UpsertAgentProfileRequest)
        (pending : Text) (r : Attempt AgentProfileStoreError AgentProfile)
        → ValidIds ids
        → checked_profile pending request ≡ r
        → Good s
        → Good (kept_or s (create_checked serialize trouble s.0 s.1 ids r))
    unfolding create_checked
    create_checked-Good trouble s ids request pending (failed e) v eq h = h
    create_checked-Good trouble s ids request pending (done p) v eq h =
        elim (Attempt-cases (unique_profiles s.0 none p.name)) [
          | inr (e, refused) ↦ rw (refused, create_checked) h
          | inl (m, unique) ↦
              let (same, free) = unique_profiles-done s.0 none p.name m unique in
              rw (unique, create_checked)
                (insert_fresh-Good trouble s p m (fresh_id m ids) same
                  (λ id found.
                    validate_stored_profile-Checked pending id request p
                      (checked_profile-Checked pending request p eq)
                      (fresh_id_valid m ids id v found))
                  free h)
        ]

    delete_from-Good :
        (trouble : Trouble) (s : Kept Bytes) (id : Text)
        (r : Attempt AgentProfileStoreError Profiles)
        → ((m : Profiles) → r ≡ done m → WellFormed m)
        → Good s
        → Good (kept (delete_from serialize trouble s.0 s.1 id r))
    unfolding delete_from
    delete_from-Good trouble s id (failed e) w h = h
    delete_from-Good trouble s id (done m) w h = elim (Bool-cases (is_some (get id m))) [
      | inl there ↦
          rw (there, delete_from)
            (commit-Good trouble s (remove id m) tt (remove-WellFormed id m (w m refl)) h)
      | inr missing ↦ rw (missing, delete_from) h
    ]

    pub perform-Good :
        (call : Call) (s : Kept Bytes) → Generated call → Good s → Good (perform serialize call s)
    unfolding perform upsert_profile create_profile delete_profile
    perform-Good (Call.upsert trouble id request) s g h =
        upsert_checked-Good trouble s id request _ refl h
    perform-Good (Call.create trouble ids request) s g h =
        create_checked-Good trouble s ids request (codes "profile-pending") _ g refl h
    perform-Good (Call.delete trouble id) s g h =
        delete_from-Good trouble s id _ (λ m eq. deletable s.0 id m h.memory eq) h

    -- If what is serialized parses back, and generated ids are valid, then every sequence of calls
    -- keeps: the profiles in memory stand each under its own id, in keys that differ, with names
    -- that differ, and each is valid as a stored profile; and the file, if there is one, holds
    -- such profiles.
    pub run-Good :
        (calls : List Call) (s : Kept Bytes)
        → All Generated calls
        → Good s
        → Good (run serialize calls s)
    unfolding run
    run-Good [] s g h = h
    run-Good (call ∷ calls) s g h =
        run-Good calls (perform serialize call s) g.1 (perform-Good call s g.0 h)
