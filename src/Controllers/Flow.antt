-- ===== src/Controllers/Flow.antt =====
-- pdsno/controllers: an approval by the regional controller, and its execution by the local one.
mod Tests
use partially_distributed_sm.Common.{List, Option, String, nat_eq, some, string_eq}
use partially_distributed_sm.Platform.{Platform}
use partially_distributed_sm.Controllers.Messages.{Instruction}
use partially_distributed_sm.Config.Token.{ExecutionToken, to_dict}

-- An instruction that carries a token.
abbrev pub carrying :
    Platform
    → ExecutionToken
    → Option String
    → String
    → Option (List String)
    → Option String
    → Instruction
carrying p t id device_id lines execute_at = record {
  proposal_id = id;
  device_id = some device_id;
  config_lines = lines;
  execution_token = some (to_dict p t);
  execute_at = execute_at;
}
