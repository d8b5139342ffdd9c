-- ===== src/Config/Approval/Decisions.antt =====
-- pdsno/config/approval_engine.py: the result of an approval, on every branch.
use mathlib.Core.Path.{subst}
use partially_distributed_sm.Common.{
  Bool, Bool-cases, Option-cases, String, [], ap, beq_self, false, if◌then◌else◌, inl, inr, lookup,
  lookup-insert, nat_eq, not, refl, some, string_eq, sym, true, ℕ, ◌&&◌, ◌++◌, ◌==◌, ◌∙◌, ◌∷◌, ◌≡◌,
}
use partially_distributed_sm.Platform.{Platform}
use partially_distributed_sm.Config.Approval.Request.{ApprovalRequest, approved, expired}
use partially_distributed_sm.Config.Approval.Engine.{
  Engine, approve_found, approve_request, cache, can_approve, is_expired, is_pending,
  persist_request, save,
}
use partially_distributed_sm.Config.Approval.Sharing.{with_request-cached}

-- Whether the three checks of `approve_request` pass.
abbrev pub may_pass : ApprovalRequest → String → ℕ → ℕ → Bool
may_pass r approver timeout now =
    is_pending r.state && can_approve r approver && not (is_expired r timeout now)

module _ (p : Platform) where
  requests-persist :
      (r : ApprovalRequest) (now : ℕ) (e : Engine)
      → (persist_request p r now e).requests ≡ e.requests
  unfolding persist_request
  requests-persist r now e = elim (Option-cases e.nib_store) [
    | inl absent ↦ rw (absent, persist_request) refl
    | inr (nib, there) ↦ rw (there, persist_request) refl
  ]

  -- A saved request is found under its id; the entries of other ids are as they were.
  pub lookup-save :
      (id j : String) (r : ApprovalRequest) (now : ℕ) (e : Engine)
      → lookup j (save p id r now e).requests ≡ (if id == j then some r else lookup j e.requests)
  lookup-save id j r now e =
      ap (lookup j) (requests-persist r now (cache id r e)) ∙ lookup-insert id j r e.requests

  pub lookup-save_self :
      (id : String) (r : ApprovalRequest) (now : ℕ) (e : Engine)
      → lookup id (save p id r now e).requests ≡ some r
  lookup-save_self id r now e = lookup-save id id r now e ∙ rw beq_self refl

  module _ (id approver : String) (now : ℕ → ℕ) (e : Engine) (r : ApprovalRequest) where
    -- What is shown of the result of an approval.
    abbrev Decided : Engine × Bool → Type 0
    Decided (e', done) =
        (done ≡ may_pass r approver e.approval_timeout (now 0))
        × (done ≡ true
            → lookup id e'.requests
              ≡ some (record r {
                state = approved;
                approved_at = some (now 1);
                approvers = r.approvers ++ approver ∷ [];
              }))
        × (done ≡ false
            → lookup id e'.requests
              ≡ some (record r {
                state = if is_pending r.state && can_approve r approver then expired else r.state;
              }))
        × ((j : String) → (id == j) ≡ false → lookup j e'.requests ≡ lookup j e.requests)

    approve_found-Decided :
        lookup id e.requests ≡ some r → Decided (approve_found p id approver now r e)
    unfolding approve_found
    approve_found-Decided cached = elim (Bool-cases (is_pending r.state)) [
      | inr settled ↦ rw (settled, approve_found) (refl, λ h. cc, λ h. cached, λ j other. refl)
      | inl pending ↦ elim (Bool-cases (can_approve r approver)) [
        | inr weak ↦ rw (pending, approve_found, weak) (refl, λ h. cc, λ h. cached, λ j other. refl)
        | inl strong ↦ elim (Bool-cases (is_expired r e.approval_timeout (now 0))) [
          | inl late ↦
              rw (pending, approve_found, strong, late)
                (
                  refl,
                  λ h. cc,
                  λ h. lookup-save_self id _ _ e,
                  λ j other. lookup-save id j _ _ e ∙ rw other refl,
                )
          | inr in_time ↦
              rw (pending, approve_found, strong, in_time)
                (
                  refl,
                  λ h. lookup-save_self id _ _ e,
                  λ h. cc,
                  λ j other. lookup-save id j _ _ e ∙ rw other refl,
                )
        ]
      ]
    ]

  -- A cached request is approved exactly when it is pending, the approver's role suffices for its
  -- sensitivity and its time has not run out. It then is APPROVED, with the approver at the end of
  -- the list. Otherwise it is as it was, but that a pending request whose time has run out becomes
  -- EXPIRED if the approver has the authority. Other requests are never touched.
  pub approve_request_outcome :
      (id approver : String) (now : ℕ → ℕ) (e : Engine) (r : ApprovalRequest)
      → lookup id e.requests ≡ some r
      → let (e', done) = approve_request p id approver now e in
        (done ≡ may_pass r approver e.approval_timeout (now 0))
        × (done ≡ true
            → lookup id e'.requests
              ≡ some (record r {
                state = approved;
                approved_at = some (now 1);
                approvers = r.approvers ++ approver ∷ [];
              }))
        × (done ≡ false
            → lookup id e'.requests
              ≡ some (record r {
                state = if is_pending r.state && can_approve r approver then expired else r.state;
              }))
        × ((j : String) → (id == j) ≡ false → lookup j e'.requests ≡ lookup j e.requests)
  unfolding approve_request
  approve_request_outcome id approver now e r cached =
      subst (Decided id approver now e r)
        (sym (with_request-cached p id (approve_found p id approver now) e cached))
        (approve_found-Decided id approver now e r cached)
