-- ===== src/Controllers/Local/Once.antt =====
-- pdsno/controllers/local_controller.py: the tokens that a sequence of instructions executes.
use partially_distributed_sm.Common.{
  Bool-cases, Dict, Distinct, List, Option, Option-cases, String, [], arith, elem, false,
  if◌then◌else◌, inl, inr, length, lookup, nat_eq, none, refl, some, string_eq, true, ℕ, ◌+◌, ◌<◌,
  ◌∙◌, ◌∷◌, ◌≡◌, ◌≤◌,
}
use partially_distributed_sm.Platform.{Platform}
use partially_distributed_sm.Controllers.Messages.{Instruction, or_empty}
use partially_distributed_sm.Nib.Models.{ConfigStatus, Reply, integrity_error, result}
use partially_distributed_sm.Nib.Store.{NibStore}
use partially_distributed_sm.Config.Token.{
  ExecutionToken, ExecutionTokenManager, Refusal, cleanup_threshold, from_dict, verify_token,
}
use partially_distributed_sm.Config.Token.Replay.{Attempt, accepted, accepted-Distinct}
use partially_distributed_sm.Config.Approval.Engine.{ConfigData}
use partially_distributed_sm.Controllers.Local.{
  Failure, LocalController, execute_config_change, finish_execution, handle_execution_instruction,
  has_no_label, log_execution, mark_config, mark_config_executing, mark_config_terminal_state,
  on_verified, or_no_fields, run_token, set_result,
}

pub record Received : Type 0 where
  pub instruction : Instruction
  pub event_id : String
  pub now : ℕ → ℕ

-- `xs` has no entry twice if `ys` has none, and no entry that `ys` lacks.
abbrev IsWithin : List String → List String → Type 0
IsWithin xs ys =
    (Distinct ys → Distinct xs) × ((n : String) → elem n ys ≡ false → elem n xs ≡ false)

IsWithin-both : (x : String) (xs ys : List String) → IsWithin xs ys → IsWithin (x ∷ xs) (x ∷ ys)
IsWithin-both x xs ys (d, w) = (λ h. (w x h.0, d h.1), λ n h. ground (arith, w n))

IsWithin-right : (x : String) (xs ys : List String) → IsWithin xs ys → IsWithin xs (x ∷ ys)
IsWithin-right x xs ys (d, w) = (λ h. d h.1, λ n h. ground (arith, w n))

module _ (p : Platform) (event_key : List ℕ) (reason_text : Failure → String) where
  -- The token that an instruction hands to `verify_token`, if it comes so far.
  abbrev pub token_of : Instruction → Option ExecutionToken
  token_of i =
      if has_no_label (lookup "token_id" (or_no_fields i.execution_token))
      then none
      else from_dict p (or_no_fields i.execution_token)

  abbrev note : Option ExecutionToken → Option Failure → List String → List String
  note (some t) none rest = t.nonce ∷ rest
  note _ _ rest = rest

  -- The nonces of the tokens of the instructions that are executed, one entry for each of them.
  unfoldable pub executed_nonces : LocalController → List Received → List String
  executed_nonces c [] = []
  executed_nonces c (r ∷ rs) =
      note (token_of r.instruction)
        (run_token p event_key reason_text (token_of r.instruction) r.instruction r.now c).1
        (executed_nonces
          (handle_execution_instruction p event_key reason_text r.instruction r.event_id r.now c).0
          rs)

  abbrev add_attempt : Option ExecutionToken → Received → List Attempt → List Attempt
  add_attempt none r rest = rest
  add_attempt (some t) r rest =
      record { token = t; expected_device = r.instruction.device_id; now = r.now 0 } ∷ rest

  abbrev attempts_of : List Received → List Attempt
  attempts_of [] = []
  attempts_of (r ∷ rs) = add_attempt (token_of r.instruction) r (attempts_of rs)

  mark-tokens :
      (s : ConfigStatus) (id : Option String) (now : ℕ) (c : LocalController)
      → (mark_config s id now c).tokens ≡ c.tokens
  mark-tokens s none now c = refl
  mark-tokens s (some id) now c = refl

  set_result-tokens :
      (id : Option String) (d : Dict String String) (now : ℕ → ℕ) (c : LocalController)
      → (set_result p event_key reason_text id d now c).tokens ≡ c.tokens
  set_result-tokens none d now c = refl
  set_result-tokens (some id) d now c = refl

  log-tokens :
      (w : NibStore ConfigData × Reply) (i : Instruction) (f : Option Failure) (now : ℕ)
      (c : LocalController)
      → (log_execution p event_key reason_text w i f now c).0.tokens ≡ c.tokens
  log-tokens (nib, integrity_error) i f now c = refl
  log-tokens (nib, result r) i f now c = refl

  finish-tokens :
      (i : Instruction) (event_id : String) (now : ℕ → ℕ) (x : LocalController × Option Failure)
      → (finish_execution p event_key reason_text i event_id now x).0.tokens ≡ x.0.tokens
  unfolding finish_execution mark_config_terminal_state
  finish-tokens i event_id now (c, f) =
      log-tokens _ i f (now 5) _
      ∙ set_result-tokens i.proposal_id _ _ _
      ∙ mark-tokens _ i.proposal_id (now 0) c

  on_verified-tokens :
      (r : Option Refusal) (i : Instruction) (now : ℕ) (c : LocalController)
      → (on_verified p event_key reason_text r i now c).0.tokens ≡ c.tokens
  unfolding mark_config_executing
  on_verified-tokens (some r) i now c = refl
  on_verified-tokens none i now c = mark-tokens ConfigStatus.executing i.proposal_id now c

  -- The manager after an instruction: what `verify_token` leaves, if it is called.
  abbrev tokens_after : Option ExecutionToken → Received → LocalController → ExecutionTokenManager
  tokens_after none r c = c.tokens
  tokens_after (some t) r c = (verify_token p c.tokens t r.instruction.device_id (r.now 0)).0

  run_token-tokens :
      (d : Option ExecutionToken) (r : Received) (c : LocalController)
      → (run_token p event_key reason_text d r.instruction r.now c).0.tokens ≡ tokens_after d r c
  unfolding run_token
  run_token-tokens none r c = refl
  run_token-tokens (some t) r c = on_verified-tokens _ r.instruction (r.now 1) _

  handle-tokens :
      (r : Received) (c : LocalController)
      → (handle_execution_instruction p event_key reason_text r.instruction r.event_id r.now
          c).0.tokens
        ≡ tokens_after (token_of r.instruction) r c
  unfolding handle_execution_instruction
  handle-tokens r c =
      elim (Bool-cases
        (has_no_label (lookup "token_id" (or_no_fields r.instruction.execution_token)))) [
          | inl bad ↦ rw bad refl
          | inr fine ↦ rw fine (
              finish-tokens r.instruction r.event_id (λ n. r.now (n + 2)) _
              ∙ run_token-tokens (from_dict p (or_no_fields r.instruction.execution_token)) r c)
        ]

  keep-IsWithin :
      (d : Option ExecutionToken) (r : Received) (c : LocalController) (xs : List String)
      (as' : List Attempt)
      → IsWithin xs (accepted p (tokens_after d r c) as')
      → IsWithin
          (note d (run_token p event_key reason_text d r.instruction r.now c).1 xs)
          (accepted p c.tokens (add_attempt d r as'))
  unfolding run_token
  keep-IsWithin none r c xs as' h = h
  keep-IsWithin (some t) r c xs as' h =
      elim (Option-cases (verify_token p c.tokens t r.instruction.device_id (r.now 0)).1) [
        | inr (reason, bad) ↦ rw bad h
        | inl fine ↦
            elim (Option-cases (
              execute_config_change r.instruction.device_id
                (or_empty r.instruction.config_lines))) [
                  | inl done ↦ rw (fine, done) (IsWithin-both t.nonce xs _ h)
                  | inr (f, undone) ↦ rw (fine, undone) (IsWithin-right t.nonce xs _ h)
                ]
      ]

  executed-IsWithin :
      (rs : List Received) (c : LocalController)
      → IsWithin (executed_nonces c rs) (accepted p c.tokens (attempts_of rs))
  unfolding executed_nonces
  executed-IsWithin [] c = (λ h. h, λ n h. h)
  executed-IsWithin (r ∷ rs) c =
      let c' =
        (handle_execution_instruction p event_key reason_text r.instruction r.event_id r.now c).0 in
      keep-IsWithin (token_of r.instruction) r c (executed_nonces c' rs) (attempts_of rs)
        (rw⁻¹ (handle-tokens r c) (executed-IsWithin rs c'))

  length-attempts : (rs : List Received) → length (attempts_of rs) ≤ length rs
  length-attempts [] = omega arith
  length-attempts (r ∷ rs) = elim (Option-cases (token_of r.instruction)) [
    | inl absent ↦ rw absent (omega (arith, length-attempts rs))
    | inr (t, e) ↦ rw e (omega (arith, length-attempts rs))
  ]

  -- A token executes once: over any sequence of instructions that, with the verifications since the
  -- last cleanup of the nonces, stays below 1000, the nonces of the tokens that are executed are
  -- pairwise different, and none of them was recorded before.
  pub executed_nonces-Distinct :
      (c : LocalController) (rs : List Received)
      → c.tokens.nonce_cleanup_counter + length rs < cleanup_threshold
      → Distinct (executed_nonces c rs)
        × ((n : String)
            → elem n c.tokens.used_nonces ≡ true
            → elem n (executed_nonces c rs) ≡ false)
  executed_nonces-Distinct c rs h =
      let (distinct, fresh) =
        accepted-Distinct p c.tokens (attempts_of rs) (omega (arith, h, length-attempts rs)) in
      let (d, w) = executed-IsWithin rs c in (d distinct, λ n old. w n (fresh n old))
