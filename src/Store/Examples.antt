-- ===== src/Store/Examples.antt =====
-- A store with a session of each of two owners, and the theorems at it.
use acp_orchestrator.Common.{
  ltb, if◌then◌else◌, ◌&&◌, ◌==◌, list_eqb, ℕ, suc, ◌≡◌, ◌≢◌, refl, Bool, Text, codes, List, [],
  ◌∷◌, none, some, map, filter, length, get_elem?, arith, text_eq, nat_eq,
}
use acp_orchestrator.Common.Assoc.{get, remove}
use acp_orchestrator.Contracts.Sessions.{SessionListItem}
use acp_orchestrator.Session.Types.{SessionHandle, SessionStoreError, Stamp}
use acp_orchestrator.Session.Lifecycle as Lifecycle
use acp_orchestrator.Store.Types.{SessionStore, TurnHandle}
use acp_orchestrator.Store.Access.{find_handle}
use acp_orchestrator.Store.Recency.{list_owned_sessions}
use acp_orchestrator.Store.Sessions.{create_session, delete_session}
use acp_orchestrator.Store.Requests.{Request, submits, renames, perform, failure}
use acp_orchestrator.Store.Authorization.{refusal, foreign, perform-refused}
use acp_orchestrator.Store.Isolation.{perform-isolated}
use acp_orchestrator.Store.Count.{active_sessions_of}
use acp_orchestrator.Store.Cap.{create_session-cap}
use acp_orchestrator.Store.Deletion.{Halted, delete_session-Halted}
use acp_orchestrator.Contracts.Sessions.{closed}
use acp_orchestrator.Store.Retention.{prune_closed_sessions}
use acp_orchestrator.Store.Pruning.{prune-open}
use acp_orchestrator.Store.Owned.{owned_entries}
use acp_orchestrator.Store.Order.{Sorted, list_owned_sessions-Sorted}

abbrev alice : Text
alice = codes "alice"

abbrev bob : Text
bob = codes "bob"

abbrev first : SessionHandle
unfolding Lifecycle.new
first = Lifecycle.new (codes "s_1") alice (codes "w") 5 1

abbrev second : SessionHandle
unfolding Lifecycle.new
second = Lifecycle.new (codes "s_2") bob (codes "w") 6 2

-- With room for two active sessions of each owner.
abbrev store : SessionStore
store = record {
  handles = first ∷ second ∷ [];
  sessions = (codes "s_1", 0) ∷ (codes "s_2", 1) ∷ [];
  recent_order_counter = 2;
  closed_session_limit = 32;
  session_cap = 2;
}

abbrev stamp : Stamp
stamp = record { uuid = codes "3"; now = 9 }

abbrev turn : TurnHandle
turn = record { handle = 0; session_id = codes "s_1"; prompt_text = codes "hi"; prompt_order = 0 }

abbrev asks : Request
asks = submits stamp (codes "hello")

alice_is_not_bob : alice ≢ bob
alice_is_not_bob e = cc

found_first : find_handle store (codes "s_1") ≡ some (0, first)
unfolding find_handle get list_eqb
found_first = refl

perform-refused_example :
    perform store bob (codes "s_1") asks ≡ (store, some (refusal asks SessionStoreError.forbidden))
unfolding first
perform-refused_example =
    perform-refused store bob (codes "s_1") asks SessionStoreError.forbidden
      (foreign 0 first found_first alice_is_not_bob)

perform-isolated_example :
    get_elem? (perform store bob (codes "s_2") (renames (codes "new"))).0.handles 0 ≡ some first
unfolding first
perform-isolated_example =
    perform-isolated store bob (codes "s_2") (renames (codes "new")) 0 first refl alice_is_not_bob

-- A closed session of Alice, beside her active one.
abbrev ended : SessionHandle
ended = record first {
  session_data = record first.session_data { status = closed; closed_at = some 7 };
}

abbrev mixed : SessionStore
mixed = record store {
  handles = first ∷ second ∷ ended ∷ [];
  sessions = (codes "s_1", 0) ∷ (codes "s_2", 1) ∷ (codes "s_0", 2) ∷ [];
}

-- Alice has room for one more.
count_of_alice : active_sessions_of mixed alice ≡ 1
unfolding list_eqb first
count_of_alice = refl

create_session-cap_example :
    (failure (create_session stamp mixed alice (codes "w")).1 ≡ (
      if ltb (active_sessions_of mixed alice) 2
      then none
      else some SessionStoreError.session_cap_reached))
    × (active_sessions_of (create_session stamp mixed alice (codes "w")).0 alice ≡ (
        if ltb (active_sessions_of mixed alice) 2 && (alice == alice)
        then suc (active_sessions_of mixed alice)
        else active_sessions_of mixed alice))
unfolding get list_eqb
create_session-cap_example =
    create_session-cap stamp mixed alice (codes "w") alice
      (omega arith, (omega arith, (omega arith, tt))) refl

delete_session-Halted_example :
    (find_handle (delete_session 7 store alice (codes "s_1")).0 (codes "s_1") ≡ none)
    × Halted (λ n. stamp) (delete_session 7 store alice (codes "s_1")).0 turn
unfolding first
delete_session-Halted_example =
    delete_session-Halted 7 (λ n. stamp) store alice (codes "s_1") turn first found_first refl

list_owned_sessions-Sorted_example :
    (entries : List (ℕ × SessionListItem)) × (list_owned_sessions mixed alice
      ≡ map (λ b. b.1) entries)
    × Sorted entries
    × ((p : ℕ × SessionListItem → Bool)
        → length (filter p entries) ≡ length (filter p (owned_entries mixed alice)))
list_owned_sessions-Sorted_example = list_owned_sessions-Sorted mixed alice

-- Alice's session is closed, and no closed session may stay.
abbrev crowded : SessionStore
crowded = record store { handles = ended ∷ second ∷ []; closed_session_limit = 0 }

found_second : find_handle crowded (codes "s_2") ≡ some (1, second)
unfolding find_handle get list_eqb
found_second = refl

prune-open_example : find_handle (prune_closed_sessions crowded) (codes "s_2") ≡ some (1, second)
unfolding get list_eqb second
prune-open_example = prune-open crowded (codes "s_2") 1 second (refl, (refl, tt)) found_second refl

-- Alice's session goes.
pruned_first : find_handle (prune_closed_sessions crowded) (codes "s_1") ≡ none
unfolding find_handle prune_closed_sessions get list_eqb second remove
pruned_first = refl
