-- ===== src/Config/Token/Verify.antt =====
-- pdsno/config/execution_token.py: the acceptance of a token.
use partially_distributed_sm.Common.{
  Distinct, List, Option, Option-cases, String, [], ap, arith, elem, eq_iff, erase, false, inl, inr,
  length, nat_eq, non_empty, none, refl, some, string_eq, sym, true, ℕ, ◌+◌, ◌<◌, ◌↔◌, ◌∙◌, ◌≡◌,
  ◌≤◌,
}
use partially_distributed_sm.Platform.{HasDigits, Platform, minutes}
use partially_distributed_sm.Config.Token.{
  ExecutionToken, ExecutionTokenManager, Refusal, add_nonce, cleanup_nonces, cleanup_threshold,
  device_mismatch, issue_token, new_manager, or_default, refusal, sign_token, to_dict, verify_token,
}
use mathlib.Core.Option.{some-ne-none}

-- The state of a manager between two calls: no nonce is kept twice, there are at most as many as
-- verifications since the last cleanup, and the cleanup has not been missed.
pub record IsBounded (m : ExecutionTokenManager) : Type 0 where
  pub distinct : Distinct m.used_nonces
  pub counted : length m.used_nonces ≤ m.nonce_cleanup_counter
  pub below : m.nonce_cleanup_counter < cleanup_threshold

-- A manager is made exactly when the secret has 32 bytes or more, and it starts bounded.
pub new_manager_outcome :
    (controller_id : String) (secret : List ℕ)
    → (length secret < 32 → new_manager controller_id secret ≡ none)
      × (32 ≤ length secret
          → (m : ExecutionTokenManager) × (new_manager controller_id secret ≡ some m) × IsBounded m)
unfolding new_manager
new_manager_outcome controller_id secret = (
  λ short. ground arith,
  λ enough. (
    record {
      controller_id = controller_id;
      shared_secret = secret;
      used_nonces = [];
      nonce_cleanup_counter = 0;
    },
    ground arith,
    ground arith,
  ),
)

cleanup-IsBounded :
    (nonce : String) (m : ExecutionTokenManager)
    → IsBounded m
    → elem nonce m.used_nonces ≡ false
    → IsBounded (cleanup_nonces (add_nonce nonce m))
unfolding cleanup_nonces add_nonce
cleanup-IsBounded nonce m h e = ground arith

-- What the caller expects of the device: nothing, if it names none.
abbrev pub Suits : Option String → String → Type 0
Suits none device = Unit
Suits (some expected) device = (non_empty expected ≡ true) → device ≡ expected

device_mismatch_iff :
    (expected_device : Option String) (device : String)
    → (device_mismatch expected_device device ≡ none) ↔ Suits expected_device device
unfolding device_mismatch
device_mismatch_iff none device = (λ _. tt, λ _. refl)
device_mismatch_iff (some expected) device =
    (λ h. ground (arith, eq_iff device expected), λ h. ground (arith, eq_iff device expected))

module _ (p : Platform) (m : ExecutionTokenManager) (t : ExecutionToken)
    (expected_device : Option String) (now : ℕ) where
  -- What `verify_token` demands of a token.
  pub record IsAuthorised : Type 0 where
    pub signed : t.signature ≡ some (sign_token p m t)
    pub visible : non_empty (sign_token p m t) ≡ true
    pub in_time : now ≤ t.expires_at
    pub unused : elem t.nonce m.used_nonces ≡ false
    pub suits : Suits expected_device t.device_id

  pub refusal-none : refusal p m t expected_device now ≡ none → IsAuthorised
  unfolding refusal
  refusal-none h = elim (Option-cases t.signature) [
    | inl absent ↦ ground arith
    | inr (s, e) ↦
        ground (arith, eq_iff s (sign_token p m t), device_mismatch_iff expected_device t.device_id)
  ]

  refusal_of_IsAuthorised : IsAuthorised → refusal p m t expected_device now ≡ none
  unfolding refusal
  refusal_of_IsAuthorised h = ground (
    arith,
    h.signed,
    eq_iff (sign_token p m t) (sign_token p m t),
    device_mismatch_iff expected_device t.device_id,
  )

  -- `verify_token` accepts a token exactly when it carries the digest of its own fields under the
  -- manager's secret, has not expired, has a nonce that is not recorded, and is for the expected
  -- device, if the caller names one. A refusal leaves the manager as it was.
  pub verify_token_iff :
      let (m', reason) = verify_token p m t expected_device now in
      ((reason ≡ none) ↔ IsAuthorised) × ((r : Refusal) → reason ≡ some r → m' ≡ m)
  unfolding verify_token
  verify_token_iff = elim (Option-cases (refusal p m t expected_device now)) [
    | inl accepted ↦ rw accepted ((λ _. refusal-none accepted, λ _. refl), λ r h. cc)
    | inr (r, e) ↦
        rw e
          ((λ h. cc, λ h. absurd (some-ne-none r (sym e ∙ refusal_of_IsAuthorised h))), λ s h. refl)
  ]

  -- Verification keeps the bounds of a manager: fewer than 1000 nonces, each of them once, and no
  -- more than the verifications since the last cleanup.
  pub verify_token-IsBounded : IsBounded m → IsBounded (verify_token p m t expected_device now).0
  unfolding verify_token
  verify_token-IsBounded b = elim (Option-cases (refusal p m t expected_device now)) [
    | inl accepted ↦ rw accepted (cleanup-IsBounded t.nonce m b (refusal-none accepted).unused)
    | inr (r, e) ↦ rw e b
  ]

module _ (p : Platform) where
  -- The digest depends on the secret alone, and not on the rest of the manager.
  pub sign_token_secret :
      (m v : ExecutionTokenManager) (t : ExecutionToken)
      → v.shared_secret ≡ m.shared_secret
      → sign_token p m t ≡ sign_token p v t
  unfolding sign_token
  sign_token_secret m v t h = rw h

  -- The digest does not cover the signature itself.
  sign_token-unsigned :
      (m : ExecutionTokenManager) (t : ExecutionToken) (s : Option String)
      → sign_token p m (record t { signature = s }) ≡ sign_token p m t
  unfolding sign_token to_dict erase
  sign_token-unsigned m t s = refl

  -- Where digests are not empty, a token that a manager issues is accepted by any manager with the
  -- same secret, on the device that it was issued for, until it expires, unless its nonce was used.
  pub verify-issue_token :
      (m v : ExecutionTokenManager) (request_id device_id token_id nonce : String)
      (validity : Option ℕ) (issued now : ℕ)
      → HasDigits p
      → v.shared_secret ≡ m.shared_secret
      → elem nonce v.used_nonces ≡ false
      → now ≤ issued + minutes (or_default validity)
      → let t = issue_token p m request_id device_id validity issued token_id nonce in
        (verify_token p v t (some device_id) now).1 ≡ none
  unfolding issue_token
  verify-issue_token m v request_id device_id token_id nonce validity issued now digits secret
        unused in_time =
      let t = issue_token p m request_id device_id validity issued token_id nonce in
      (verify_token_iff p v t (some device_id) now).0.1 (record {
        signed = ap some (sign_token_secret m v _ secret ∙ sym (sign_token-unsigned v _ _));
        visible = unfold sign_token in digits v.shared_secret _;
        in_time = in_time;
        unused = unused;
        suits = λ _. refl;
      })
