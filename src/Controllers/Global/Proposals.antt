-- ===== src/Controllers/Global/Proposals.antt =====
-- pdsno/controllers/global_controller.py: the decision on the proposals that regional controllers
-- pass on. What `uuid` and `secrets` make is an argument.
use Prim.Native.Char.{Char, code}
use partially_distributed_sm.Common.{
  Bool, List, Option, String, [], false, if◌then◌else◌, nat_eq, non_empty, none, not, some,
  string_eq, true, ℕ, ◌==◌, ◌||◌, ◌∷◌,
}
use partially_distributed_sm.Platform.{Platform}
use partially_distributed_sm.Controllers.Messages.{Envelope, Proposal, or_empty}
use partially_distributed_sm.Controllers.Holding.{set_config_status}
use partially_distributed_sm.Controllers.Secrets.{execution_secret}
use partially_distributed_sm.Nib.Store.{NibStore}
use partially_distributed_sm.Nib.Events.{write_event}
use partially_distributed_sm.Config.Token.{
  ExecutionToken, ExecutionTokenManager, issue_token, new_manager,
}
use partially_distributed_sm.Config.Approval.Engine.{ConfigData}
use partially_distributed_sm.Config.Sensitivity.Classifier.{Regex, classify}
use partially_distributed_sm.Controllers.Global.{GlobalController}
use partially_distributed_sm.Nib.Models.{ConfigStatus, Event, Reply, result, integrity_error}
use partially_distributed_sm.Config.Sensitivity.{SensitivityLevel}

pub data GcRefusal : Type 0 where
  missing_required_fields not_high_sensitivity : GcRefusal

-- The answer; an approval holds the id, the responder, the time and the token.
pub data GcAnswer : Type 0 where
  gc_denies : Option String → GcRefusal → GcAnswer
  gc_approves : String → String → String → ExecutionToken → GcAnswer
  gc_fails : GcAnswer

-- `text.split("_")`
abbrev pub put_char : Char → List String → List String
put_char c [] = []
put_char c (w ∷ ws) = String.◌∷◌ c w ∷ ws

abbrev pub split_on : ℕ → String → List String
split_on separator String.[] = "" ∷ []
split_on separator (String.◌∷◌ c s) =
    let rest = split_on separator s in if code c == separator then "" ∷ rest else put_char c rest

abbrev pub third_or_zone_a : List String → String
third_or_zone_a (a ∷ b ∷ region ∷ rest) = region
third_or_zone_a _ = "zone-A"

-- The region of the payload, or the one that the sender's id names.
abbrev pub region_of : Option String → String → String
region_of none sender = third_or_zone_a (split_on b'_' sender)
region_of (some region) sender =
    if non_empty region then region else third_or_zone_a (split_on b'_' sender)

abbrev pub is_level_high : SensitivityLevel → Bool
is_level_high SensitivityLevel.high = true
is_level_high _ = false

module _ (p : Platform) (event_key : List ℕ) {Match : Type 0} (rx : Regex Match)
    (digest : String → List ℕ) (variable : Option String) where
  abbrev pub approval_event : String → String → String → String → String → ℕ → Event
  approval_event event_id actor id token_id recipient now = record {
    event_id = event_id;
    event_type = "CONFIG_APPROVED";
    actor = actor;
    timestamp = now;
    action = "GC approved HIGH config proposal";
    subject = some id;
    decision = some "APPROVED";
    payload_ref = none;
    notes = none;
    signature = none;
    details =
        ("proposal_id", some id)
        ∷ ("token_id", some token_id)
        ∷ ("recipient_rc", some recipient)
        ∷ [];
  }

  abbrev pub log_approval :
      NibStore ConfigData × Reply
      → String
      → ExecutionToken
      → ℕ
      → GlobalController
      → GlobalController × GcAnswer
  log_approval (nib, integrity_error) id t now g = (record g { nib = nib }, gc_fails)
  log_approval (nib, result r) id t now g =
      (record g { nib = nib }, gc_approves id g.controller_id (p.isoformat now) t)

  abbrev pub approve_with :
      ExecutionToken
      → String
      → String
      → String
      → (ℕ → ℕ)
      → GlobalController
      → GlobalController × GcAnswer
  approve_with t id sender event_id now g =
      let nib =
        set_config_status id ConfigStatus.approved (some g.controller_id) (some t.token_id)
          (some t.expires_at) (now 1) g.nib in
      log_approval
        (write_event p event_key
          (approval_event event_id g.controller_id id t.token_id sender (now 2)) "" nib)
        id t (now 3) g

  -- A secret that is too short raises.
  abbrev pub issue_and_approve :
      Option ExecutionTokenManager
      → String
      → String
      → String
      → String
      → String
      → String
      → (ℕ → ℕ)
      → GlobalController
      → GlobalController × GcAnswer
  issue_and_approve none id device_id sender token_id nonce event_id now g = (g, gc_fails)
  issue_and_approve (some m) id device_id sender token_id nonce event_id now g =
      approve_with (issue_token p m id device_id (some 5) (now 0) token_id nonce) id sender event_id
        now g

  abbrev pub decide_on :
      Option String
      → Option String
      → Envelope Proposal
      → String
      → String
      → String
      → (ℕ → ℕ)
      → GlobalController
      → GlobalController × GcAnswer
  decide_on (some id) (some device_id) env token_id nonce event_id now g =
      if not (non_empty id) || not (non_empty device_id)
      then (g, gc_denies (some id) missing_required_fields)
      else if not (is_level_high (classify rx g.classifier (or_empty env.payload.config_lines)))
      then (g, gc_denies (some id) not_high_sensitivity)
      else issue_and_approve
          (new_manager g.controller_id
            (execution_secret digest variable (region_of env.payload.region env.sender_id)))
          id device_id env.sender_id token_id nonce event_id now g
  decide_on id _ env token_id nonce event_id now g = (g, gc_denies id missing_required_fields)

  unfoldable pub decide_proposal :
      Envelope Proposal
      → String
      → String
      → String
      → (ℕ → ℕ)
      → GlobalController
      → GlobalController × GcAnswer
  decide_proposal env token_id nonce event_id now g =
      decide_on env.payload.proposal_id env.payload.device_id env token_id nonce event_id now g
