-- ===== src/Slash/Types.antt =====
-- crates/acp-contracts-slash/src/lib.rs: the types and the catalog of slash commands.
use acp_orchestrator.Common.{Text, codes, List, [], ◌∷◌}

pub data CompletionKind : Type 0 where
  command parameter : CompletionKind

pub record CompletionCandidate : Type 0 where
  pub label : Text
  pub insert_text : Text
  pub detail : Text
  pub kind : CompletionKind

pub data SlashCommand : Type 0 where
  help quit cancel approve deny : SlashCommand

pub record SlashCommandSpec : Type 0 where
  pub command : SlashCommand
  pub name : Text
  pub label : Text
  pub insert_text : Text
  pub detail : Text

pub data SlashCompletionQuery : Type 0 where
  commands : Text → SlashCompletionQuery
  request_id : SlashCommand → Text → SlashCompletionQuery

-- `SLASH_COMMAND_SPECS`
unfoldable pub slash_command_specs : List SlashCommandSpec
slash_command_specs =
    record {
      command = SlashCommand.help;
      name = codes "/help";
      label = codes "/help";
      insert_text = codes "/help";
      detail = codes "Show available slash commands";
    }
    ∷ record {
      command = SlashCommand.quit;
      name = codes "/quit";
      label = codes "/quit";
      insert_text = codes "/quit";
      detail = codes "Exit chat";
    }
    ∷ record {
      command = SlashCommand.cancel;
      name = codes "/cancel";
      label = codes "/cancel";
      insert_text = codes "/cancel";
      detail = codes "Cancel the running turn";
    }
    ∷ record {
      command = SlashCommand.approve;
      name = codes "/approve";
      label = codes "/approve <request-id>";
      insert_text = codes "/approve ";
      detail = codes "Approve a pending permission request";
    }
    ∷ record {
      command = SlashCommand.deny;
      name = codes "/deny";
      label = codes "/deny <request-id>";
      insert_text = codes "/deny ";
      detail = codes "Deny a pending permission request";
    }
    ∷ []
