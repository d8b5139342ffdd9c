-- ===== src/Controllers/Local/Executes.antt =====
-- pdsno/controllers/local_controller.py: which instructions are executed, and how often.
use partially_distributed_sm.Common.{
  Bool, List, String, [], false, nat_eq, some, string_eq, true, ℕ, ◌∷◌, ◌≡◌,
}
use partially_distributed_sm.Platform.{Platform}
use partially_distributed_sm.Controllers.Messages.{Instruction, is_set, or_empty}
use partially_distributed_sm.Config.Token.{ExecutionToken, from_dict}
use partially_distributed_sm.Config.Token.Verify.{IsAuthorised}
use partially_distributed_sm.Controllers.Local.{LocalController, or_no_fields}

abbrev pub any_line : List String → Bool
any_line [] = false
any_line (l ∷ ls) = true

-- What an instruction must bring for the controller to execute it at a time.
pub record CanExecute (p : Platform) (i : Instruction) (now : ℕ) (c : LocalController)
    : Type 0 where
  pub token : ExecutionToken
  pub decoded : from_dict p (or_no_fields i.execution_token) ≡ some token
  pub authorised : IsAuthorised p c.tokens token i.device_id now
  pub named : is_set i.device_id ≡ true
  pub filled : any_line (or_empty i.config_lines) ≡ true
