-- ===== src/Controllers/Global/Decides.antt =====
-- pdsno/controllers/global_controller.py: what stands behind the approval of a proposal.
use mathlib.Core.Path.{subst}
use partially_distributed_sm.Common.{
  Bool-cases, List, Option, String, arith, inl, inr, length, ltb, nat_eq, non_empty, none, not,
  refl, some, string_eq, true, ℕ, ◌||◌, ◌≡◌,
}
use partially_distributed_sm.Platform.{Platform}
use partially_distributed_sm.Controllers.Messages.{Envelope, Proposal, or_empty}
use partially_distributed_sm.Controllers.Secrets.{execution_secret}
use partially_distributed_sm.Controllers.Global.Proposals.{
  GcAnswer, decide_on, decide_proposal, gc_approves, is_level_high, issue_and_approve, log_approval,
  region_of,
}
use partially_distributed_sm.Nib.Store.{NibStore}
use partially_distributed_sm.Config.Token.{
  ExecutionToken, ExecutionTokenManager, issue_token, new_manager,
}
use partially_distributed_sm.Config.Approval.Engine.{ConfigData}
use partially_distributed_sm.Config.Sensitivity.Classifier.{Regex, classify}
use partially_distributed_sm.Controllers.Global.{GlobalController}
use partially_distributed_sm.Nib.Models.{Reply, result, integrity_error}

new_manager-secret :
    (id : String) (secret : List ℕ) (m : ExecutionTokenManager)
    → new_manager id secret ≡ some m
    → m.shared_secret ≡ secret
unfolding new_manager
new_manager-secret id secret m h = elim (Bool-cases (ltb (length secret) 32)) [
  | inl short ↦ let wrong = rw short at h in cc
  | inr fine ↦ let same = rw fine at h in cc
]

module _ (p : Platform) (event_key : List ℕ) {Match : Type 0} (rx : Regex Match)
    (digest : String → List ℕ) (variable : Option String) (env : Envelope Proposal)
    (token_id nonce_text event_id : String) (now : ℕ → ℕ) where
  -- The token is issued for the proposal and the device, for 5 minutes, under the secret of the region.
  abbrev pub IssuedFor : GlobalController → String → String → ExecutionToken → Type 0
  IssuedFor g id device_id t =
      (m : ExecutionTokenManager) × (m.shared_secret
        ≡ execution_secret digest variable (region_of env.payload.region env.sender_id))
      × (t ≡ issue_token p m id device_id (some 5) (now 0) token_id nonce_text)

  -- What an answer says, if it approves.
  abbrev Grounded : GlobalController → Option String → Option String → GcAnswer → Type 0
  Grounded g id device_id (gc_approves id' responder time t) =
      (d : String) × (id ≡ some id')
      × (device_id ≡ some d)
      × (non_empty d ≡ true)
      × (is_level_high (classify rx g.classifier (or_empty env.payload.config_lines)) ≡ true)
      × (responder ≡ g.controller_id)
      × IssuedFor g id' d t
  Grounded g id device_id _ = Unit

  log-Grounded :
      (w : NibStore ConfigData × Reply) (id device_id : String) (t : ExecutionToken) (time : ℕ)
      (g : GlobalController)
      → non_empty device_id ≡ true
      → is_level_high (classify rx g.classifier (or_empty env.payload.config_lines)) ≡ true
      → IssuedFor g id device_id t
      → Grounded g
          (some id)
          (some device_id)
          (log_approval p event_key rx digest variable w id t time g).1
  log-Grounded (nib, integrity_error) id device_id t time g visible risky h = tt
  log-Grounded (nib, result r) id device_id t time g visible risky h =
      (device_id, refl, refl, visible, risky, refl, h)

  issue-Grounded :
      (o : Option ExecutionTokenManager) (id device_id : String) (g : GlobalController)
      → new_manager g.controller_id
          (execution_secret digest variable (region_of env.payload.region env.sender_id))
        ≡ o
      → non_empty device_id ≡ true
      → is_level_high (classify rx g.classifier (or_empty env.payload.config_lines)) ≡ true
      → Grounded g
          (some id)
          (some device_id)
          (issue_and_approve p event_key rx digest variable o id device_id env.sender_id token_id
            nonce_text event_id now g).1
  issue-Grounded none id device_id g made visible risky = tt
  issue-Grounded (some m) id device_id g made visible risky =
      log-Grounded _ id device_id _ (now 3) g visible risky
        (m, new_manager-secret g.controller_id _ m made, refl)

  decide_on-Grounded :
      (id device_id : Option String) (g : GlobalController)
      → Grounded g id device_id
          (decide_on p event_key rx digest variable id device_id env token_id nonce_text event_id
            now g).1
  decide_on-Grounded none device_id g = tt
  decide_on-Grounded (some id) none g = tt
  decide_on-Grounded (some id) (some device_id) g =
      elim (Bool-cases (not (non_empty id) || not (non_empty device_id))) [
        | inl absent ↦ rw absent tt
        | inr present_both ↦
            elim (Bool-cases
              (is_level_high (classify rx g.classifier (or_empty env.payload.config_lines)))) [
                | inr calm ↦ rw (present_both, calm) tt
                | inl risky ↦
                    rw (present_both, risky)
                      (issue-Grounded _ id device_id g refl (ground (arith, present_both)) risky)
              ]
      ]

  -- A global controller approves a proposal only if the proposal names an id and a device that is not
  -- empty and the classifier finds its lines to be of high sensitivity; the responder is the
  -- controller, and the token is for that id and that device, under the secret of the region.
  pub decide_proposal_approves :
      (g : GlobalController) (id responder time : String) (t : ExecutionToken)
      → (decide_proposal p event_key rx digest variable env token_id nonce_text event_id now g).1
        ≡ gc_approves id responder time t
      → Grounded g env.payload.proposal_id env.payload.device_id (gc_approves id responder time t)
  unfolding decide_proposal
  decide_proposal_approves g id responder time t h =
      subst (Grounded g env.payload.proposal_id env.payload.device_id) h
        (decide_on-Grounded env.payload.proposal_id env.payload.device_id g)
