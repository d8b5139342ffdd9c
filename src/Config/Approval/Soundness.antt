-- ===== src/Config/Approval/Soundness.antt =====
-- pdsno/config/approval_engine.py: the authority behind each approval, over sequences of calls.
use partially_distributed_sm.Common.{
  All, All-append, Bool, Bool-cases, Dict, List, Option, Option-cases, String, [], ap, false,
  if◌then◌else◌, inl, inr, keys, lookup, lookup-insert, nat_eq, none, refl, some, string_eq, sym,
  true, ℕ, ◌&&◌, ◌++◌, ◌+◌, ◌==◌, ◌∙◌, ◌∷◌, ◌≡◌, ◌⊎◌,
}
use partially_distributed_sm.Platform.{Platform, ReadsBack}
use partially_distributed_sm.Config.Sensitivity.{SensitivityLevel}
use partially_distributed_sm.Config.Approval.Request.{
  ApprovalRequest, ApprovalState, WritesText, approved, executed, failed, from_dict-to_dict_request,
  new_request, pending_approval, rolled_back,
}
use partially_distributed_sm.Config.Approval.Engine.{
  ConfigData, Engine, approve_found, approve_request, cache, can_approve, cleanup_expired_requests,
  config_of, create_request, expire_all, expire_one, get_request, is_approved_state, is_draft,
  is_expired, is_low, is_pending, load_request_from_nib, may_approve, persist_request, read_config,
  reject_found, reject_request, result_state, role_of, save, set_execution_result,
  set_execution_token, set_result_found, set_token_found, status_of, submit_found, submit_request,
  with_request, write_request,
}
use partially_distributed_sm.Config.Approval.Sharing.{load-persist, load_of, read-write_existing}
use partially_distributed_sm.Config.Approval.Decisions.{lookup-save}
use partially_distributed_sm.Nib.Store.{NibStore}
use partially_distributed_sm.Nib.Configs.{get_config}
use partially_distributed_sm.Nib.Configs.Writes.{get-create_cases}
use mathlib.Core.Option.{some-injective}
use mathlib.Core.Path.{subst}

-- The approver's role suffices for the sensitivity.
abbrev pub HasAuthority : SensitivityLevel → String → Type 0
HasAuthority s a = may_approve s (role_of a) ≡ true

abbrev pub some_approver : List String → Bool
some_approver [] = false
some_approver (a ∷ as') = true

abbrev pub has_token : Option String → Bool
has_token none = false
has_token (some t) = true

pub record IsSound (r : ApprovalRequest) : Type 0 where
  pub authorised : All (HasAuthority r.sensitivity) r.approvers
  pub backed : is_approved_state r.state ≡ true → some_approver r.approvers ≡ true
  pub tokened : has_token r.execution_token ≡ true → some_approver r.approvers ≡ true

some_approver-append : (as' : List String) (a : String) → some_approver (as' ++ a ∷ []) ≡ true
some_approver-append [] a = refl
some_approver-append (b ∷ as') a = refl

approved-IsSound :
    (r : ApprovalRequest) (approver : String) (t : ℕ)
    → IsSound r
    → can_approve r approver ≡ true
    → IsSound (record r {
      state = approved;
      approved_at = some t;
      approvers = r.approvers ++ approver ∷ [];
    })
unfolding can_approve
approved-IsSound r approver t h able = record {
  authorised =
      All-append (HasAuthority r.sensitivity) r.approvers (approver ∷ []) h.authorised (able, tt);
  backed = λ _. some_approver-append r.approvers approver;
  tokened = λ _. some_approver-append r.approvers approver;
}

choice-approved :
    (a b c : Bool) (s : ApprovalState)
    → is_approved_state (if a then executed else if b then failed else if c then rolled_back else s)
      ≡ true
    → is_approved_state s ≡ true
choice-approved true b c s h = cc
choice-approved false true c s h = cc
choice-approved false false true s h = cc
choice-approved false false false s h = h

result_state-approved :
    (status : List ℕ) (s : ApprovalState)
    → is_approved_state (result_state status s) ≡ true
    → is_approved_state s ≡ true
unfolding result_state
result_state-approved status s h = choice-approved _ _ _ s h

-- The calls that change an engine.
pub data Call : Type 0 where
  create : String → String → List String → SensitivityLevel → ℕ → Call
  submit : String → (ℕ → ℕ) → Call
  approve : String → String → (ℕ → ℕ) → Call
  reject : String → String → String → (ℕ → ℕ) → Call
  cleanup : (ℕ → ℕ) → Call
  set_token : String → String → (ℕ → ℕ) → Call
  set_result : String → Dict String String → (ℕ → ℕ) → Call

module _ (p : Platform) where
  unfoldable pub call : Call → Engine → Engine
  call (create id device_id config_lines sensitivity now) e =
      (create_request p id device_id config_lines sensitivity now e).0
  call (submit id now) e = (submit_request p id now e).0
  call (approve id approver now) e = (approve_request p id approver now e).0
  call (reject id rejector reason now) e = (reject_request p id rejector reason now e).0
  call (cleanup now) e = (cleanup_expired_requests p now e).0
  call (set_token id token now) e = (set_execution_token p id token now e).0
  call (set_result id result now) e = (set_execution_result p id result now e).0

  unfoldable pub run : List Call → Engine → Engine
  run [] e = e
  run (c ∷ cs) e = run cs (call c e)

  -- Every request that the engine has cached, and every one that it can load, is sound.
  pub record IsTrusted (e : Engine) : Type 0 where
    pub cached : (id : String) (r : ApprovalRequest) → lookup id e.requests ≡ some r → IsSound r
    pub loadable :
        (id : String) (r : ApprovalRequest) → load_request_from_nib p id e ≡ some r → IsSound r

module _ (p : Platform) (reads_back : ReadsBack p) (writes_text : WritesText p) where
  -- What the store gives after a request was written to it: what it gave before, or that request.
  read-write_cases :
      (j : String) (r : ApprovalRequest) (now : ℕ) (nib : NibStore ConfigData)
      → (read_config p (get_config j (write_request p r now nib))
          ≡ read_config p (get_config j nib))
        ⊎ (read_config p (get_config j (write_request p r now nib)) ≡ some r)
  unfolding write_request
  read-write_cases j r now nib = elim (Option-cases (get_config r.request_id nib)) [
    | inr (c, there) ↦ inl (read-write_existing p r now nib j there)
    | inl absent ↦ elim (get-create_cases j (config_of p r) now nib) [
      | inl same ↦ inl (rw (absent, write_request) (ap (read_config p) same))
      | inr new ↦ inr (
          rw (absent, write_request)
            (ap (read_config p) new
              ∙ (unfold config_of in from_dict-to_dict_request p reads_back writes_text r)))
    ]
  ]

  same-IsSound : (r r' : ApprovalRequest) → some r ≡ some r' → IsSound r → IsSound r'
  same-IsSound r r' e = subst IsSound (some-injective r r' e)

  persist-none :
      (r : ApprovalRequest) (now : ℕ) (e : Engine)
      → e.nib_store ≡ none
      → persist_request p r now e ≡ e
  unfolding persist_request
  persist-none r now e absent = rw absent refl

  load-cache :
      (id j : String) (r : ApprovalRequest) (e : Engine)
      → load_request_from_nib p j (cache id r e) ≡ load_request_from_nib p j e
  unfolding load_request_from_nib
  load-cache id j r e = refl

  load-save_cases :
      (id j : String) (r : ApprovalRequest) (now : ℕ) (e : Engine)
      → (load_request_from_nib p j (save p id r now e) ≡ load_request_from_nib p j e)
        ⊎ (load_request_from_nib p j (save p id r now e) ≡ some r)
  load-save_cases id j r now e = elim (Option-cases e.nib_store) [
    | inl absent ↦ inl (
        ap (load_request_from_nib p j) (persist-none r now (cache id r e) absent)
        ∙ load-cache id j r e)
    | inr (nib, there) ↦ elim (read-write_cases j r now nib) [
      | inl same ↦
          inl (load-persist p r now (cache id r e) there j ∙ same ∙ sym (load_of p r now e there j))
      | inr new ↦ inr (load-persist p r now (cache id r e) there j ∙ new)
    ]
  ]

  save-IsTrusted :
      (id : String) (r : ApprovalRequest) (now : ℕ) (e : Engine)
      → IsTrusted p e
      → IsSound r
      → IsTrusted p (save p id r now e)
  save-IsTrusted id r now e h sound = record {
    cached = λ j r' found. elim (Bool-cases (id == j)) [
      | inl same ↦ same-IsSound r r' (sym (lookup-save p id j r now e ∙ rw same refl) ∙ found) sound
      | inr other ↦ h.cached j r' (sym (lookup-save p id j r now e ∙ rw other refl) ∙ found)
    ];
    loadable = λ j r' found. elim (load-save_cases id j r now e) [
      | inl same ↦ h.loadable j r' (sym same ∙ found)
      | inr new ↦ same-IsSound r r' (sym new ∙ found) sound
    ];
  }

  cache-IsTrusted :
      (id : String) (r : ApprovalRequest) (e : Engine)
      → IsTrusted p e
      → IsSound r
      → IsTrusted p (cache id r e)
  unfolding load_request_from_nib
  cache-IsTrusted id r e h sound = record {
    cached = λ j r' found. elim (Bool-cases (id == j)) [
      | inl same ↦
          same-IsSound r r' (sym (lookup-insert id j r e.requests ∙ rw same refl) ∙ found) sound
      | inr other ↦ h.cached j r' (sym (lookup-insert id j r e.requests ∙ rw other refl) ∙ found)
    ];
    loadable = h.loadable;
  }

  -- A method that keeps the invariant on every sound request keeps it on the one that it finds.
  with_request-IsTrusted :
      (id : String) (body : ApprovalRequest → Engine → Engine × Bool) (e : Engine)
      → ((r : ApprovalRequest) (e : Engine) → IsSound r → IsTrusted p e → IsTrusted p (body r e).0)
      → IsTrusted p e
      → IsTrusted p (with_request p id body e).0
  unfolding get_request
  with_request-IsTrusted id body e keeps h = elim (Option-cases (lookup id e.requests)) [
    | inr (r, found) ↦ rw (found, with_request, get_request) (keeps r e (h.cached id r found) h)
    | inl missing ↦ elim (Option-cases (load_request_from_nib p id e)) [
      | inl nowhere ↦ rw (missing, with_request, get_request, nowhere) h
      | inr (r, loaded) ↦
          let sound = h.loadable id r loaded in
          rw (missing, with_request, get_request, loaded)
            (keeps r (cache id r e) sound (cache-IsTrusted id r e h sound))
    ]
  ]

  approve_found-IsTrusted :
      (id approver : String) (now : ℕ → ℕ) (r : ApprovalRequest) (e : Engine)
      → IsSound r
      → IsTrusted p e
      → IsTrusted p (approve_found p id approver now r e).0
  unfolding approve_found
  approve_found-IsTrusted id approver now r e sound h = elim (Bool-cases (is_pending r.state)) [
    | inr settled ↦ rw (settled, approve_found) h
    | inl pending ↦ elim (Bool-cases (can_approve r approver)) [
      | inr weak ↦ rw (pending, approve_found, weak) h
      | inl strong ↦ elim (Bool-cases (is_expired r e.approval_timeout (now 0))) [
        | inl late ↦
            rw (pending, approve_found, strong, late)
              (save-IsTrusted id _ _ e h (record {
                authorised = sound.authorised;
                backed = λ x. cc;
                tokened = sound.tokened;
              }))
        | inr in_time ↦
            rw (pending, approve_found, strong, in_time)
              (save-IsTrusted id _ _ e h (approved-IsSound r approver (now 1) sound strong))
      ]
    ]
  ]

  reject_found-IsTrusted :
      (id rejector reason : String) (now : ℕ → ℕ) (r : ApprovalRequest) (e : Engine)
      → IsSound r
      → IsTrusted p e
      → IsTrusted p (reject_found p id rejector reason now r e).0
  unfolding reject_found
  reject_found-IsTrusted id rejector reason now r e sound h =
      elim (Bool-cases (is_pending r.state)) [
        | inr settled ↦ rw (settled, reject_found) h
        | inl pending ↦ elim (Bool-cases (can_approve r rejector)) [
          | inr weak ↦ rw (pending, reject_found, weak) h
          | inl strong ↦
              rw (pending, reject_found, strong)
                (save-IsTrusted id _ _ e h (record {
                  authorised = sound.authorised;
                  backed = λ x. cc;
                  tokened = sound.tokened;
                }))
        ]
      ]

  approve-IsTrusted :
      (id approver : String) (now : ℕ → ℕ) (e : Engine)
      → IsTrusted p e
      → IsTrusted p (approve_request p id approver now e).0
  unfolding approve_request
  approve-IsTrusted id approver now e h =
      with_request-IsTrusted id (approve_found p id approver now) e
        (approve_found-IsTrusted id approver now) h

  submit_found-IsTrusted :
      (id : String) (now : ℕ → ℕ) (r : ApprovalRequest) (e : Engine)
      → IsSound r
      → IsTrusted p e
      → IsTrusted p (submit_found p id now r e).0
  unfolding submit_found
  submit_found-IsTrusted id now r e sound h =
      let r' : ApprovalRequest = record r {
        state = pending_approval;
        submitted_at = some (now 0);
      } in
      let saved : IsTrusted p (save p id r' (now 1) e) =
        save-IsTrusted id r' (now 1) e h
          (record { authorised = sound.authorised; backed = λ x. cc; tokened = sound.tokened }) in
      elim (Bool-cases (is_draft r.state)) [
        | inr left ↦ rw (left, submit_found) h
        | inl drafted ↦ elim (Bool-cases (is_low r.sensitivity)) [
          | inr sensitive ↦ rw (drafted, submit_found, sensitive) saved
          | inl harmless ↦
              rw (drafted, submit_found, harmless)
                (approve-IsTrusted id e.controller_id (λ n. now (n + 2)) (save p id r' (now 1) e)
                  saved)
        ]
      ]

  submit-IsTrusted :
      (id : String) (now : ℕ → ℕ) (e : Engine)
      → IsTrusted p e
      → IsTrusted p (submit_request p id now e).0
  unfolding submit_request
  submit-IsTrusted id now e h = elim (Option-cases (lookup id e.requests)) [
    | inl missing ↦ rw (missing, submit_request) h
    | inr (r, found) ↦
        rw (found, submit_request) (submit_found-IsTrusted id now r e (h.cached id r found) h)
  ]

  set_token_found-IsTrusted :
      (id token : String) (now : ℕ → ℕ) (r : ApprovalRequest) (e : Engine)
      → IsSound r
      → IsTrusted p e
      → IsTrusted p (set_token_found p id token now r e).0
  unfolding set_token_found
  set_token_found-IsTrusted id token now r e sound h =
      elim (Bool-cases (is_approved_state r.state)) [
        | inr other ↦ rw (other, set_token_found) h
        | inl passed ↦
            rw (passed, set_token_found)
              (save-IsTrusted id _ _ e h (record {
                authorised = sound.authorised;
                backed = sound.backed;
                tokened = λ x. sound.backed passed;
              }))
      ]

  set_result_found-IsTrusted :
      (id : String) (result : Dict String String) (now : ℕ → ℕ) (r : ApprovalRequest) (e : Engine)
      → IsSound r
      → IsTrusted p e
      → IsTrusted p (set_result_found p id result now r e).0
  unfolding set_result_found
  set_result_found-IsTrusted id result now r e sound h = save-IsTrusted id _ _ e h (record {
    authorised = sound.authorised;
    backed = λ x. sound.backed (result_state-approved (status_of result) r.state x);
    tokened = sound.tokened;
  })

  expire_one-IsTrusted :
      (id : String) (now : ℕ → ℕ) (e : Engine)
      → IsTrusted p e
      → IsTrusted p (expire_one p id now e).0
  unfolding expire_one
  expire_one-IsTrusted id now e h = elim (Option-cases (lookup id e.requests)) [
    | inl missing ↦ rw (missing, expire_one) h
    | inr (r, found) ↦
        elim (Bool-cases (is_pending r.state && is_expired r e.approval_timeout (now 0))) [
          | inr kept ↦ rw (found, expire_one, kept) h
          | inl late ↦
              let sound : IsSound r = h.cached id r found in
              rw (found, expire_one, late)
                (save-IsTrusted id _ _ e h (record {
                  authorised = sound.authorised;
                  backed = λ x. cc;
                  tokened = sound.tokened;
                }))
        ]
  ]

  expire_all-IsTrusted :
      (ids : List String) (now : ℕ → ℕ) (e : Engine)
      → IsTrusted p e
      → IsTrusted p (expire_all p ids now e).0
  unfolding expire_all
  expire_all-IsTrusted [] now e h = h
  expire_all-IsTrusted (id ∷ ids) now e h =
      expire_all-IsTrusted ids (λ k. now (k + 2)) _ (expire_one-IsTrusted id now e h)

  call-IsTrusted : (c : Call) (e : Engine) → IsTrusted p e → IsTrusted p (call p c e)
  unfolding call create_request new_request reject_request cleanup_expired_requests
      set_execution_token set_execution_result
  call-IsTrusted (create id device_id config_lines sensitivity now) e h =
      cache-IsTrusted id _ e h (record { authorised = tt; backed = λ x. cc; tokened = λ x. cc })
  call-IsTrusted (submit id now) e h = submit-IsTrusted id now e h
  call-IsTrusted (approve id approver now) e h = approve-IsTrusted id approver now e h
  call-IsTrusted (reject id rejector reason now) e h =
      with_request-IsTrusted id (reject_found p id rejector reason now) e
        (reject_found-IsTrusted id rejector reason now) h
  call-IsTrusted (cleanup now) e h = expire_all-IsTrusted (keys e.requests) now e h
  call-IsTrusted (set_token id token now) e h =
      with_request-IsTrusted id (set_token_found p id token now) e
        (set_token_found-IsTrusted id token now) h
  call-IsTrusted (set_result id result now) e h =
      with_request-IsTrusted id (set_result_found p id result now) e
        (set_result_found-IsTrusted id result now) h

  -- Authority: where timestamps are read back from their texts, which are not empty, a sequence of
  -- calls to an engine, in any order and at any times, keeps this of
  -- every request that is cached or that can be loaded: each of its approvers has a role that
  -- suffices for its sensitivity, and it is approved or holds an execution token only if it has
  -- an approver.
  pub run-IsTrusted : (cs : List Call) (e : Engine) → IsTrusted p e → IsTrusted p (run p cs e)
  unfolding run
  run-IsTrusted [] e h = h
  run-IsTrusted (c ∷ cs) e h = run-IsTrusted cs (call p c e) (call-IsTrusted c e h)
