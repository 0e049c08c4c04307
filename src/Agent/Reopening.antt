-- ===== src/Agent/Reopening.antt =====
-- The store of the profiles over a restart of the program, in
-- crates/acp-web-backend/src/agent_profiles.rs.
use acp_orchestrator.Common.{
  ◌≡◌, refl, sym, ◌∙◌, true, false, Text, List, [], Option, none, some, is_some, Bool-cases,
  if_false, Option-cases, inl, inr, All, text_eq,
}
use acp_orchestrator.Common.Assoc.{get, remove, All-get}
use acp_orchestrator.Common.Attempt.{Attempt, done, failed, and_then, Attempt-cases}
use acp_orchestrator.Agent.Profiles.{
  AgentProfile, AgentProfileStoreError, AgentProfileStore, tree_insert, values, lock_profiles,
}
use acp_orchestrator.Agent.Operations.{
  Trouble, File, write_error, replace, write_profiles, commit, insert_profile, upsert_checked,
  upsert_profile, insert_fresh, create_checked, create_profile, delete_from, delete_profile,
  unique_profiles, open_store, read_profiles, profile_config, fresh_id, with_id,
}
use acp_orchestrator.Agent.Valid.{validate_stored_profile-launches}
use acp_orchestrator.Agent.Names.{Profiles, Entry, WellFormed, []-WellFormed}
use acp_orchestrator.Agent.Runs.{
  Call, Generated, Kept, kept_or, is_done, is_done_or, perform, run, succeeds,
}
use acp_orchestrator.Agent.Keeping.{Sound, perform-Good, run-Good}
use acp_orchestrator.Agent.Restart.{looked_up, open_store-values}

lock_profiles-done :
    (self : AgentProfileStore) → self.poisoned ≡ false → lock_profiles self ≡ done self.profiles
unfolding lock_profiles
lock_profiles-done self sane = if_false self.poisoned _ _ sane

-- Where the invariant holds and the lock is not poisoned, a configuration is found for exactly the
-- ids that have a profile: every stored profile makes a valid configuration.
pub profile_config_found :
    (self : AgentProfileStore) (id : Text)
    → WellFormed self.profiles
    → self.poisoned ≡ false
    → is_done (profile_config self (some id)) ≡ is_some (get id self.profiles)
unfolding profile_config
profile_config_found self id w sane = elim (Option-cases (get id self.profiles)) [
  | inl missing ↦ rw (lock_profiles-done self sane) (rw missing refl)
  | inr (p, there) ↦
      let entry = All-get (λ k q. Entry (k, q)) id self.profiles w.entries there in
      let (config, launches) = validate_stored_profile-launches p entry.1 in
      rw (lock_profiles-done self sane) (rw there (rw launches refl))
]

abbrev pub empty_store : AgentProfileStore
empty_store = record { profiles = []; poisoned = false }

module _ {Bytes : Type 0} (serialize : List AgentProfile → Attempt Text Bytes)
    (parse : Bytes → Attempt Text (List AgentProfile)) where
  Sound-opens :
      (file : File Bytes)
      → Sound serialize parse file
      → (self : AgentProfileStore) × ((open_store parse file ≡ done self)
          × WellFormed self.profiles)
  unfolding open_store read_profiles
  Sound-opens _ Sound.absent = (empty_store, (refl, []-WellFormed))
  Sound-opens _ (Sound.present m bytes parsed w) =
      let (self, (opened, (good, same))) = open_store-values parse bytes m parsed w in
      (self, (opened, good))

  module _
      (faithful : (ps : List AgentProfile) (bytes : Bytes)
        → serialize ps ≡ done bytes
        → parse bytes ≡ done ps) where
    -- If what is serialized parses back, and generated ids are valid, then after any sequence of
    -- calls on an empty store without a file, with any failures of the file system, a new store
    -- opens on the file without an error, and its profiles satisfy the invariant.
    pub run_reopens :
        (calls : List Call)
        → All Generated calls
        → (self : AgentProfileStore) × ((open_store parse
                (run serialize calls (empty_store, none)).1
              ≡ done self)
            × WellFormed self.profiles)
    run_reopens calls g =
        let good =
          run-Good serialize parse faithful calls (empty_store, none) g
            (record { memory = []-WellFormed; file = Sound.absent }) in
        Sound-opens _ good.file

    -- What a call that succeeds has stored is what the next start reads.
    stored :
        (trouble : Option AgentProfileStoreError) (file : File Bytes) (m : Profiles) (k : Text)
        → WellFormed m
        → (r : Attempt Text Bytes) → serialize (values m) ≡ r
        → is_done (replace trouble file r).1 ≡ true
        → looked_up k (open_store parse (replace trouble file r).0) ≡ get k m
    unfolding replace
    stored trouble file m k w (failed e) eq h = cc
    stored (some error) file m k w (done bytes) eq h = cc
    stored none file m k w (done bytes) eq h =
        let (self, (opened, (good, same))) =
          open_store-values parse bytes m (faithful (values m) bytes eq) w in
        rw opened (same k)

    is_done-and_then :
        {E A : Type 0} (r : Attempt E (Unit {0})) (a : A)
        → is_done (and_then r (λ u. done a)) ≡ is_done r
    is_done-and_then (done u) a = refl
    is_done-and_then (failed e) a = refl

    commit_stored :
        {A : Type 0} (trouble : Trouble) (s : Kept Bytes) (m : Profiles) (a : A) (k : Text)
        → WellFormed m
        → is_done (commit serialize trouble s.0 s.1 m a).1.1 ≡ true
        → looked_up k (open_store parse (commit serialize trouble s.0 s.1 m a).1.0) ≡ get k m
    unfolding commit write_profiles
    commit_stored trouble s m a k w h =
        stored (write_error trouble) s.1 m k w (serialize (values m)) refl
          (sym (is_done-and_then (write_profiles serialize trouble s.1 m).1 a) ∙ h)

    upsert_checked_stored :
        (trouble : Trouble) (s : Kept Bytes) (id k : Text)
        (r : Attempt AgentProfileStoreError AgentProfile)
        → WellFormed (upsert_checked serialize trouble s.0 s.1 id r).0.profiles
        → is_done (upsert_checked serialize trouble s.0 s.1 id r).1.1 ≡ true
        → looked_up k (open_store parse (upsert_checked serialize trouble s.0 s.1 id r).1.0)
          ≡ get k (upsert_checked serialize trouble s.0 s.1 id r).0.profiles
    unfolding upsert_checked insert_profile
    upsert_checked_stored trouble s id k (failed e) w h = cc
    upsert_checked_stored trouble s id k (done p) w h =
        elim (Attempt-cases (unique_profiles s.0 (some id) p.name)) [
          | inr (e, refused) ↦ cc (rw (refused, is_done, upsert_checked) at h)
          | inl (m, unique) ↦
              rw (unique, upsert_checked)
                (commit_stored trouble s (tree_insert p.id p m) p k
                  (rw (unique, upsert_checked) at w) (rw (unique, is_done, upsert_checked) at h))
        ]

    insert_fresh_stored :
        (trouble : Trouble) (s : Kept Bytes) (p : AgentProfile) (m : Profiles) (o : Option Text)
        (k : Text)
        → WellFormed (kept_or s (insert_fresh serialize trouble s.0 s.1 p m o)).0.profiles
        → is_done_or (insert_fresh serialize trouble s.0 s.1 p m o) ≡ true
        → looked_up k
            (open_store parse (kept_or s (insert_fresh serialize trouble s.0 s.1 p m o)).1)
          ≡ get k (kept_or s (insert_fresh serialize trouble s.0 s.1 p m o)).0.profiles
    unfolding insert_fresh insert_profile
    insert_fresh_stored trouble s p m none k w h = cc
    insert_fresh_stored trouble s p m (some id) k w h =
        commit_stored trouble s (tree_insert id (with_id id p) m) (with_id id p) k w h

    create_checked_stored :
        (trouble : Trouble) (s : Kept Bytes) (ids : List Text) (k : Text)
        (r : Attempt AgentProfileStoreError AgentProfile)
        → WellFormed (kept_or s (create_checked serialize trouble s.0 s.1 ids r)).0.profiles
        → is_done_or (create_checked serialize trouble s.0 s.1 ids r) ≡ true
        → looked_up k
            (open_store parse (kept_or s (create_checked serialize trouble s.0 s.1 ids r)).1)
          ≡ get k (kept_or s (create_checked serialize trouble s.0 s.1 ids r)).0.profiles
    unfolding create_checked
    create_checked_stored trouble s ids k (failed e) w h = cc
    create_checked_stored trouble s ids k (done p) w h =
        elim (Attempt-cases (unique_profiles s.0 none p.name)) [
          | inr (e, refused) ↦ cc (rw (refused, is_done_or, create_checked) at h)
          | inl (m, unique) ↦
              rw (unique, create_checked)
                (insert_fresh_stored trouble s p m (fresh_id m ids) k
                  (rw (unique, create_checked) at w) (rw (unique, is_done_or, create_checked) at h))
        ]

    delete_from_stored :
        (trouble : Trouble) (s : Kept Bytes) (id k : Text)
        (r : Attempt AgentProfileStoreError Profiles)
        → WellFormed (delete_from serialize trouble s.0 s.1 id r).0.profiles
        → is_done (delete_from serialize trouble s.0 s.1 id r).1.1 ≡ true
        → looked_up k (open_store parse (delete_from serialize trouble s.0 s.1 id r).1.0)
          ≡ get k (delete_from serialize trouble s.0 s.1 id r).0.profiles
    unfolding delete_from
    delete_from_stored trouble s id k (failed e) w h = cc
    delete_from_stored trouble s id k (done m) w h = elim (Bool-cases (is_some (get id m))) [
      | inr missing ↦ cc (rw (missing, is_done, delete_from) at h)
      | inl there ↦
          rw (there, delete_from)
            (commit_stored trouble s (remove id m) tt k (rw (there, delete_from) at w)
              (rw (there, is_done, delete_from) at h))
    ]

    call_stored :
        (call : Call) (s : Kept Bytes) (k : Text)
        → WellFormed (perform serialize call s).0.profiles
        → succeeds serialize call s ≡ true
        → looked_up k (open_store parse (perform serialize call s).1)
          ≡ get k (perform serialize call s).0.profiles
    unfolding perform succeeds upsert_profile create_profile delete_profile
    call_stored (Call.upsert trouble id request) s k w h =
        upsert_checked_stored trouble s id k _ w h
    call_stored (Call.create trouble ids request) s k w h =
        create_checked_stored trouble s ids k _ w h
    call_stored (Call.delete trouble id) s k w h = delete_from_stored trouble s id k _ w h

    -- If what is serialized parses back, and generated ids are valid, then behind a call that is
    -- answered without an error, at the end of any sequence of calls on an empty store, a new
    -- store that opens on the file finds for every id what the store has in memory.
    pub succeeds_stored :
        (calls : List Call) (call : Call) (k : Text)
        → All Generated calls
        → Generated call
        → succeeds serialize call (run serialize calls (empty_store, none)) ≡ true
        → looked_up k
            (open_store parse (perform serialize call (run serialize calls (empty_store, none))).1)
          ≡ get k (perform serialize call (run serialize calls (empty_store, none))).0.profiles
    succeeds_stored calls call k gs g h =
        let s = run serialize calls (empty_store, none) in
        let good =
          run-Good serialize parse faithful calls (empty_store, none) gs
            (record { memory = []-WellFormed; file = Sound.absent }) in
        let after = perform-Good serialize parse faithful call s g good in
        call_stored call s k after.memory h
