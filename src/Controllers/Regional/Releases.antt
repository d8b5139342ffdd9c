-- ===== src/Controllers/Regional/Releases.antt =====
-- pdsno/controllers/regional_controller.py: when the lock of a proposal is given back.
use partially_distributed_sm.Common.{
  Bool, Dict, List, Option, String, false, find_row, lookup, nat_eq, non_empty, none, not, some,
  string_eq, true, ℕ, ◌≡◌,
}
use partially_distributed_sm.Platform.{Platform}
use partially_distributed_sm.Controllers.Messages.{Envelope, Instruction, Proposal}
use partially_distributed_sm.Controllers.Regional.{
  RegionalController, acquire_proposal_lock, release_expired_proposal_locks,
}
use partially_distributed_sm.Controllers.Regional.Proposals.{
  Decision, DenyReason, Fresh, GcProposal, GcReply, approved, denied, escalated, fields_missing,
  forwarded, lock_refused, raised,
}
use partially_distributed_sm.Controllers.Regional.Freed.{IsFreed, entry_of}
use partially_distributed_sm.Nib.Store.{NibStore}
use partially_distributed_sm.Nib.Locks.{is_held}
use partially_distributed_sm.Config.Token.{refusal}
use partially_distributed_sm.Config.Approval.Engine.{ConfigData, Engine}
use partially_distributed_sm.Config.Sensitivity.Classifier.{Regex}

-- The refusals that come before the lock is taken.
abbrev pub is_early : DenyReason → Bool
is_early fields_missing = true
is_early (lock_refused refusal) = true
is_early _ = false

-- The decisions that end the review of a proposal without its execution.
abbrev pub ends_review : Decision → Bool
ends_review (denied id reason) = not (is_early reason)
ends_review (escalated id) = true
ends_review (forwarded id decision reason responder) = true
ends_review (approved id responder time i fields) = false
ends_review raised = false

-- A decision that ends the review leaves no entry for the proposal, and no lock of the entry that the
-- state before had for it.
abbrev Releases : String → RegionalController → RegionalController × Decision → Type 0
Releases id c y =
    ends_review y.1 ≡ true
    → (lookup id y.0.proposal_locks ≡ none)
      × IsFreed (lookup id c.proposal_locks) c.controller_id y.0.nib

-- What is shown of a proposal that names an id and a device: `c` is the state once the lock is taken.
abbrev pub Released : String → String → RegionalController → RegionalController → Type 0
Released id device_id c after =
    (lock_id : String) × (lookup id c.proposal_locks ≡ some (entry_of lock_id device_id))
    × (lookup id after.proposal_locks ≡ none)
    × (non_empty lock_id ≡ true → find_row (is_held lock_id c.controller_id) after.nib.locks ≡ none)

module _ (p : Platform) (event_key : List ℕ) {Match : Type 0} (rx : Regex Match)
    (ask_gc : GcProposal → NibStore ConfigData → NibStore ConfigData × GcReply)
    (dispatch : String
      → Instruction
      → NibStore ConfigData
      → NibStore ConfigData × Option (Dict String String))
    (env : Envelope Proposal) (fresh : Fresh) (now : ℕ → ℕ → ℕ) where
  -- The state of the controller once it has the lock.
  abbrev pub once_locked : String → String → RegionalController → RegionalController
  once_locked id device_id c =
      (acquire_proposal_lock device_id id (now 1) fresh.lock_id
        (release_expired_proposal_locks p (now 0) c)).0
