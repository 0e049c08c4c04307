-- ===== src/Slash/Agreement.antt =====
-- What the parts of the slash commands agree on: the catalog in
-- crates/acp-contracts-slash/src/lib.rs, the server's completions in
-- crates/acp-web-backend/src/completions.rs and the browser's palette in
-- crates/acp-web-frontend/src/slash.rs.
use acp_orchestrator.Common.{
  ℕ, zero, suc, ◌+◌, ◌%◌, ◌<◌, ◌≡◌, refl, ap, ◌∙◌, Bool, true, false, not, codes, ◌||◌, nat_eq,
  Text, Option, none, some, arith, is_empty, starts_with, list_eqb, ltb, ltb→lt, any, trim_start,
  is_whitespace, Bool-cases, Option-cases, inl, inr,
}
use native.Mathlib.Nat.{mod_self, mod-eq_of_lt}
use acp_orchestrator.Slash.Types.{
  SlashCommand, SlashCommandSpec, SlashCompletionQuery, slash_command_specs,
}
use acp_orchestrator.Slash.Parse.{
  spec, parse_slash_command, classify_slash_completion_prefix, classify_argument, classify_name,
  takes_request_id, split_once,
}
use acp_orchestrator.Slash.Browser.{
  cycle_slash_selection, slash_palette_is_visible, local_slash_candidates, supports_query,
  local_candidates, browser_supports_slash_command,
}

-- Every command has a spec of its own, and the name in it is read back as the command.
pub parse-spec :
    (c : SlashCommand)
    → (s : SlashCommandSpec) × (spec c ≡ some s)
      × (s.command ≡ c)
      × (parse_slash_command s.name ≡ some c)
unfolding spec parse_slash_command list_eqb
parse-spec SlashCommand.help = (_, refl, refl, refl)
parse-spec SlashCommand.quit = (_, refl, refl, refl)
parse-spec SlashCommand.cancel = (_, refl, refl, refl)
parse-spec SlashCommand.approve = (_, refl, refl, refl)
parse-spec SlashCommand.deny = (_, refl, refl, refl)

wraps : (i n : ℕ) → i ≡ n → (i + 1) % suc n ≡ 0
wraps i n e = ap (λ k. k % suc n) (omega (arith, e)) ∙ mod_self (suc n)

wraps_not : (i n : ℕ) → i < n → (i + 1) % suc n ≡ suc i
wraps_not i n h = mod-eq_of_lt (omega arith) ∙ omega arith

-- From an index in range, a step of the selection in either direction stays in range, and a step
-- in the other direction undoes it.
pub cycle-InRange :
    (count index : ℕ) (forward : Bool)
    → index < count
    → (cycle_slash_selection count index forward < count)
      × (cycle_slash_selection count (cycle_slash_selection count index forward) (not forward)
          ≡ index)
unfolding cycle_slash_selection
cycle-InRange zero index forward h = absurd (omega arith)
cycle-InRange (suc n) index true h = elim (Bool-cases (ltb (index + 1) (suc n))) [
  | inl inner ↦
      rw (wraps_not index n (omega (arith, ltb→lt (index + 1) (suc n) inner))) (ground arith)
  | inr last ↦ rw (wraps index n (ground arith)) (ground arith)
]
cycle-InRange (suc n) zero false h = (omega arith, wraps n n refl)
cycle-InRange (suc n) (suc i) false h = (omega arith, wraps_not i n (omega arith))

-- A request's id is asked for only by the commands that take one, which the browser does not know.
unsupported :
    (c : SlashCommand) → takes_request_id c ≡ true → browser_supports_slash_command c ≡ false
unfolding takes_request_id browser_supports_slash_command
unsupported SlashCommand.help h = cc
unsupported SlashCommand.quit h = refl
unsupported SlashCommand.cancel h = refl
unsupported SlashCommand.approve h = refl
unsupported SlashCommand.deny h = refl

-- What is true of every query that a draft is classified as.
abbrev TakesId : Option SlashCompletionQuery → Type 0
TakesId (some (SlashCompletionQuery.request_id c prefix)) = takes_request_id c ≡ true
TakesId _ = Unit

classify_argument-TakesId :
    (c : Option SlashCommand) (argument : Text) → TakesId (classify_argument c argument)
unfolding classify_argument
classify_argument-TakesId none argument = tt
classify_argument-TakesId (some c) argument = elim (Bool-cases (takes_request_id c)) [
  | inr refused ↦ rw refused tt
  | inl takes ↦ elim (Bool-cases (any is_whitespace (trim_start argument))) [
    | inl spaced ↦ rw (takes, spaced) tt
    | inr one ↦ rw (takes, one) takes
  ]
]

classify_name-TakesId : (name : Text) → TakesId (classify_name name)
unfolding classify_name
classify_name-TakesId name =
    elim (Bool-cases
      (any (λ (s : SlashCommandSpec). starts_with s.name name) slash_command_specs)) [
        | inl known ↦ rw known tt
        | inr unknown ↦ rw unknown tt
      ]

classify-TakesId : (draft : Text) → TakesId (classify_slash_completion_prefix draft)
unfolding classify_slash_completion_prefix
classify-TakesId draft =
    let normalized = trim_start draft in
    elim (Bool-cases (is_empty normalized || not (starts_with normalized (codes "/")))) [
      | inl other ↦ rw other tt
      | inr slash ↦ elim (Option-cases (split_once b' ' normalized)) [
        | inl name_only ↦ rw (slash, name_only) (classify_name-TakesId normalized)
        | inr ((name, argument), split) ↦
            rw (slash, split) (classify_argument-TakesId (parse_slash_command name) argument)
      ]
    ]

visible-query :
    (q : Option SlashCompletionQuery)
    → TakesId q
    → supports_query q ≡ not (is_empty (local_candidates q))
unfolding supports_query local_candidates spec slash_command_specs
visible-query none h = refl
visible-query (some (SlashCompletionQuery.request_id c prefix)) h = unsupported c h
visible-query (some (SlashCompletionQuery.commands prefix)) h =
    elim (Bool-cases (starts_with (codes "/help") prefix)) [
      | inl offered ↦ rw offered refl
      | inr other ↦ rw other refl
    ]

-- The palette of the browser is visible exactly while it has a candidate to offer.
pub visible-candidates :
    (draft : Text) → slash_palette_is_visible draft ≡ not (is_empty (local_slash_candidates draft))
unfolding slash_palette_is_visible local_slash_candidates
visible-candidates draft = visible-query _ (classify-TakesId draft)
