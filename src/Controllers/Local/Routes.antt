-- ===== src/Controllers/Local/Routes.antt =====
-- pdsno/controllers/local_controller.py: which proposals are sent on, and which are approved at once.
use partially_distributed_sm.Common.{
  Bool, Bool-cases, List, Option, String, [], false, if◌then◌else◌, inl, inr, lookup,
  lookup-insert_self, nat_eq, not, refl, some, string_eq, sym, true, ℕ, ◌&&◌, ◌++◌, ◌+◌, ◌∙◌, ◌∷◌,
  ◌≡◌,
}
use partially_distributed_sm.Platform.{Platform}
use partially_distributed_sm.Controllers.Holding.{with_nib}
use partially_distributed_sm.Nib.Store.{NibStore}
use partially_distributed_sm.Nib.Configs.{create_config_proposal}
use partially_distributed_sm.Config.Approval.Engine.{
  ConfigData, Engine, approve_request, cache, create_request, is_draft, is_low, save, submit_found,
  submit_request,
}
use partially_distributed_sm.Config.Approval.Decisions.{approve_request_outcome, lookup-save_self}
use partially_distributed_sm.Config.Sensitivity.Classifier.{Regex, classify}
use partially_distributed_sm.Controllers.Local.{LocalController}
use partially_distributed_sm.Controllers.Local.Submits.{
  Submission, auto_approved, config_record, is_approved_request, on_created, on_submit,
  put_local_engine, says_already_exists, sent_to_regional, submit_config_proposal,
}
use mathlib.Core.Path.{subst}
use partially_distributed_sm.Nib.Models.{NibResult}
use partially_distributed_sm.Config.Sensitivity.{SensitivityLevel}
use partially_distributed_sm.Config.Approval.Request.{ApprovalRequest, ApprovalState, new_request}

module _ (p : Platform) where
  -- What a submission leaves of a request, if it succeeds: it is approved if it is of low
  -- sensitivity, and pending otherwise.
  abbrev Routed : String → ApprovalRequest → Engine × Bool → Type 0
  Routed id r (e, false) = Unit
  Routed id r (e, true) =
      (r' : ApprovalRequest) × (lookup id e.requests ≡ some r')
      × (r'.request_id ≡ r.request_id)
      × (r'.config_lines ≡ r.config_lines)
      × (r'.state ≡ (
          if is_low r.sensitivity then ApprovalState.approved else ApprovalState.pending_approval))

  approve-Routed :
      (id approver : String) (now : ℕ → ℕ) (e : Engine) (r : ApprovalRequest)
      → lookup id e.requests ≡ some r
      → is_low r.sensitivity ≡ true
      → Routed id r (approve_request p id approver now e)
  approve-Routed id approver now e r cached low =
      go (approve_request p id approver now e)
        (approve_request_outcome p id approver now e r cached).1
    where
      go :
          (x : Engine × Bool)
          → (x.1 ≡ true
              → lookup id x.0.requests
                ≡ some (record r {
                  state = ApprovalState.approved;
                  approved_at = some (now 1);
                  approvers = r.approvers ++ approver ∷ [];
                }))
          → Routed id r x
      go (e', false) h = tt
      go (e', true) h = (_, h refl, refl, refl, rw low refl)

  relabel :
      (id : String) (r : ApprovalRequest) (t : ℕ) (x : Engine × Bool)
      → Routed id (record r { state = ApprovalState.pending_approval; submitted_at = some t }) x
      → Routed id r x
  relabel id r t (e', false) h = tt
  relabel id r t (e', true) h = h

  submit_found-Routed :
      (id : String) (now : ℕ → ℕ) (e : Engine) (r : ApprovalRequest)
      → is_draft r.state ≡ true
      → Routed id r (submit_found p id now r e)
  unfolding submit_found
  submit_found-Routed id now e r draft = elim (Bool-cases (is_low r.sensitivity)) [
    | inl low ↦
        rw (draft, low, submit_found)
          (relabel id r (now 0)
            (approve_request p id e.controller_id (λ n. now (n + 2)) (save p id pending (now 1) e))
            (approve-Routed id e.controller_id (λ n. now (n + 2)) (save p id pending (now 1) e)
              pending (lookup-save_self p id pending (now 1) e) low))
    | inr other ↦
        rw (draft, other, submit_found)
          (pending, lookup-save_self p id pending (now 1) e, refl, refl, rw other refl)
  ]
    where
      pending : ApprovalRequest
      pending = record r { state = ApprovalState.pending_approval; submitted_at = some (now 0) }

  submit_request-found :
      (id : String) (now : ℕ → ℕ) (e : Engine) (r : ApprovalRequest)
      → lookup id e.requests ≡ some r
      → submit_request p id now e ≡ submit_found p id now r e
  unfolding submit_request
  submit_request-found id now e r cached = rw (cached, submit_request) refl

low_of :
    (s : ApprovalState) (b : Bool)
    → s ≡ (if b then ApprovalState.approved else ApprovalState.pending_approval)
    → is_approved_request s ≡ true
    → b ≡ true
low_of s true h e = refl
low_of s false h e = let wrong = rw h at e in cc

not_low_of :
    (s : ApprovalState) (b : Bool)
    → s ≡ (if b then ApprovalState.approved else ApprovalState.pending_approval)
    → is_approved_request s ≡ false
    → (b ≡ false) × (s ≡ ApprovalState.pending_approval)
not_low_of s true h e = let wrong = rw h at e in cc
not_low_of s false h e = (refl, h)

module _ (p : Platform) {Match : Type 0} (rx : Regex Match) (sha256_hex : String → String)
    (id device_id : String) (lines : List String) (level : SensitivityLevel) where
  -- What the outcome of a submission says, for lines of a sensitivity.
  abbrev pub Routes : LocalController × Submission → Type 0
  Routes (c, auto_approved j s) = (j ≡ id) × (s ≡ level) × (is_low level ≡ true)
  Routes (c, sent_to_regional m) =
      (m.proposal_id ≡ id)
      × (m.device_id ≡ device_id)
      × (m.config_lines ≡ lines)
      × (m.suggested_sensitivity ≡ level)
      × (is_low level ≡ false)
      × (r : ApprovalRequest) × (lookup id c.engine.requests ≡ some r)
      × (r.config_lines ≡ lines)
      × (r.state ≡ ApprovalState.pending_approval)
  Routes (c, _) = Unit

  on_created-Routes :
      (w : NibStore ConfigData × NibResult) (r : ApprovalRequest)
      (rollback policy_version : Option String) (now : ℕ) (c : LocalController)
      → lookup id c.engine.requests ≡ some r
      → r.request_id ≡ id
      → r.config_lines ≡ lines
      → r.state ≡ (if is_low level then ApprovalState.approved else ApprovalState.pending_approval)
      → Routes (on_created p rx sha256_hex w r device_id lines level rollback policy_version now c)
  on_created-Routes (nib, w) r rollback policy_version now c there named same routed =
      elim (Bool-cases (not w.success && not (says_already_exists w.error))) [
        | inl lost ↦ rw lost tt
        | inr kept ↦ elim (Bool-cases (is_approved_request r.state)) [
          | inl done ↦ rw (kept, done) (named, refl, low_of r.state (is_low level) routed done)
          | inr open_still ↦
              let (risky, pending) = not_low_of r.state (is_low level) routed open_still in
              rw (kept, open_still) (named, refl, refl, refl, risky, r, there, same, pending)
        ]
      ]

  on_submit-Routes :
      (x : Engine × Bool) (r : ApprovalRequest) (rollback policy_version : Option String)
      (now : ℕ → ℕ) (c : LocalController)
      → r.request_id ≡ id
      → r.config_lines ≡ lines
      → r.sensitivity ≡ level
      → Routed p id r x
      → Routes (on_submit p rx sha256_hex x id device_id lines level rollback policy_version now c)
  on_submit-Routes (e, false) r rollback policy_version now c named same rated h = tt
  on_submit-Routes (e, true) r rollback policy_version now c named same rated
        (r', there, named', same', state') =
      rw there (
        on_created-Routes
          (create_config_proposal
            (config_record p rx sha256_hex r' device_id lines level rollback policy_version (now 7)
              (put_local_engine e c))
            (now 8) (put_local_engine e c).nib)
          r' rollback policy_version (now 9) (put_local_engine e c) there (named' ∙ named)
          (same' ∙ same) (state' ∙ rw rated refl))

module _ (p : Platform) {Match : Type 0} (rx : Regex Match) (sha256_hex : String → String) where
  -- A proposal that a local controller approves by itself is for lines that its classifier finds to be
  -- of low sensitivity. One that it sends to the regional controller is not, carries the lines, the
  -- device and the sensitivity of the submission, and its request is pending in the engine.
  pub submit_config_proposal-Routes :
      (id device_id : String) (lines : List String) (rollback policy_version : Option String)
      (now : ℕ → ℕ) (c : LocalController)
      → Routes p rx sha256_hex id device_id lines
          (classify rx c.classifier lines)
          (submit_config_proposal p rx sha256_hex id device_id lines rollback policy_version now c)
  unfolding submit_config_proposal create_request new_request
  submit_config_proposal-Routes id device_id lines rollback policy_version now c =
      let level = classify rx c.classifier lines in
      let e₀ = with_nib c.nib c.engine in
      let r = new_request id device_id lines level e₀.controller_id (now 0) in
      let e = cache id r e₀ in
      let there = lookup-insert_self id r e₀.requests in
      on_submit-Routes p rx sha256_hex id device_id lines level
        (submit_request p id (λ n. now (n + 1)) e) r rollback policy_version now c refl refl refl
        (subst (Routed p id r) (sym (submit_request-found p id (λ n. now (n + 1)) e r there))
          (submit_found-Routed p id (λ n. now (n + 1)) e r refl))
