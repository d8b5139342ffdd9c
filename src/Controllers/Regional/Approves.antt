-- ===== src/Controllers/Regional/Approves.antt =====
-- pdsno/controllers/regional_controller.py: what stands behind an approval.
use partially_distributed_sm.Common.{
  Dict, List, Option, String, false, nat_eq, non_empty, none, some, string_eq, true, ℕ, ◌≡◌, ◌⊎◌,
}
use partially_distributed_sm.Platform.{Platform}
use partially_distributed_sm.Controllers.Messages.{Envelope, Instruction, Proposal, or_empty}
use partially_distributed_sm.Controllers.Regional.{RegionalController}
use partially_distributed_sm.Controllers.Regional.Proposals.{
  Decision, Fresh, GcDecision, GcProposal, GcReply, approved, gc_decides, instruction_of, is_high,
}
use partially_distributed_sm.Controllers.Regional.Keeps.{Keeps}
use partially_distributed_sm.Nib.Store.{NibStore}
use partially_distributed_sm.Config.Token.{ExecutionToken, issue_token}
use partially_distributed_sm.Config.Approval.Engine.{ConfigData, Engine}
use partially_distributed_sm.Config.Sensitivity.Classifier.{Regex, classify}

module _ (p : Platform) (event_key : List ℕ) {Match : Type 0} (rx : Regex Match)
    (ask_gc : GcProposal → NibStore ConfigData → NibStore ConfigData × GcReply)
    (dispatch : String
      → Instruction
      → NibStore ConfigData
      → NibStore ConfigData × Option (Dict String String))
    (env : Envelope Proposal) (fresh : Fresh) (now : ℕ → ℕ → ℕ) where
  -- The global controller was asked about these lines, and approved them with the token that the
  -- instruction carries.
  abbrev pub ByGlobal : String → String → List String → Instruction → Type 0
  ByGlobal id device_id lines i =
      (q : GcProposal) × (nib : NibStore ConfigData) × (d : GcDecision) × (t : ExecutionToken)
      × (q.proposal_id ≡ id)
      × (q.device_id ≡ device_id)
      × (q.config_lines ≡ lines)
      × ((ask_gc q nib).1 ≡ gc_decides d)
      × (d.decision ≡ some "APPROVE")
      × (d.execution_token ≡ some t)
      × (i ≡ instruction_of p event_key rx ask_gc dispatch id device_id lines t none)

  -- The lines are not of high sensitivity, and the instruction carries a token of the controller's
  -- own for the device.
  abbrev pub ByRegion : RegionalController → String → String → List String → Instruction → Type 0
  ByRegion c id device_id lines i =
      (is_high (classify rx c.classifier lines) ≡ false)
      × (i
          ≡ instruction_of p event_key rx ask_gc dispatch id device_id lines
              (issue_token p c.tokens id device_id (some 15) (now 3 0) fresh.token_id fresh.nonce)
              env.payload.execute_at)

  -- What a decision says of the proposal, if it approves it.
  abbrev Explained : RegionalController → String → String → List String → Decision → Type 0
  Explained c id device_id lines (approved id' responder time i fields) =
      (id' ≡ id) × (ByGlobal id device_id lines i ⊎ ByRegion c id device_id lines i)
  Explained c id device_id lines _ = Unit

  -- What an approval says of a state `k` and of the proposal's id and device.
  abbrev Approves : RegionalController → Option String → Option String → Decision → Type 0
  Approves k id device_id (approved id' responder time i fields) =
      (d : String) × (id ≡ some id')
      × (device_id ≡ some d)
      × (non_empty d ≡ true)
      × (ByGlobal id' d (or_empty env.payload.config_lines) i
          ⊎ ByRegion k id' d (or_empty env.payload.config_lines) i)
  Approves k id device_id _ = Unit
