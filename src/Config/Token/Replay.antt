-- ===== src/Config/Token/Replay.antt =====
-- pdsno/config/execution_token.py: the nonces that a sequence of verifications accepts, and the
-- periodic cleanup.
use partially_distributed_sm.Common.{
  Distinct, List, Option, Option-cases, String, [], ap, arith, beq_self, elem, false, inl, inr,
  length, nat_eq, ne_of_elem, none, refl, some, string_eq, true, ℕ, ◌+◌, ◌<◌, ◌∙◌, ◌∷◌, ◌≡◌, ◌≤◌,
}
use partially_distributed_sm.Platform.{Platform}
use partially_distributed_sm.Config.Token.{
  ExecutionToken, ExecutionTokenManager, Refusal, add_nonce, cleanup_nonces, cleanup_threshold,
  refusal, verify_token,
}
use partially_distributed_sm.Config.Token.Verify.{refusal-none, sign_token_secret, verify_token_iff}
use mathlib.Core.Option.{some-ne-none}

-- One call of `verify_token`.
pub record Attempt : Type 0 where
  pub token : ExecutionToken
  pub expected_device : Option String
  pub now : ℕ

module _ (p : Platform) where
  abbrev pub try : ExecutionTokenManager → Attempt → ExecutionTokenManager × Option Refusal
  try m a = verify_token p m a.token a.expected_device a.now

  abbrev keep : Option Refusal → String → List String → List String
  keep none nonce rest = nonce ∷ rest
  keep (some r) nonce rest = rest

  -- The nonces of the attempts that are accepted, one entry for each of them.
  abbrev pub accepted : ExecutionTokenManager → List Attempt → List String
  accepted m [] = []
  accepted m (a ∷ as') = let (m', reason) = try m a in keep reason a.token.nonce (accepted m' as')

  -- What one attempt does to the manager, while no cleanup is due.
  Outcome : ExecutionTokenManager → Attempt → ExecutionTokenManager × Option Refusal → Type 0
  Outcome m a (m', none) =
      (elem a.token.nonce m.used_nonces ≡ false)
      × (m'.used_nonces ≡ a.token.nonce ∷ m.used_nonces)
      × (m'.nonce_cleanup_counter ≡ m.nonce_cleanup_counter + 1)
  Outcome m a (m', some r) = m' ≡ m

  try-Outcome :
      (m : ExecutionTokenManager) (a : Attempt)
      → m.nonce_cleanup_counter + 1 < cleanup_threshold
      → Outcome m a (try m a)
  unfolding Outcome verify_token cleanup_nonces add_nonce
  try-Outcome m a h = elim (Option-cases (refusal p m a.token a.expected_device a.now)) [
    | inl fine ↦
        rw fine (ground (arith, (refusal-none p m a.token a.expected_device a.now fine).unused))
    | inr (r, e) ↦ rw e refl
  ]

  counter-try :
      (m : ExecutionTokenManager) (a : Attempt)
      → (try m a).0.nonce_cleanup_counter ≤ m.nonce_cleanup_counter + 1
  unfolding verify_token cleanup_nonces add_nonce
  counter-try m a = elim (Option-cases (refusal p m a.token a.expected_device a.now)) [
    | inl fine ↦ rw fine (ground arith)
    | inr (r, e) ↦ rw e (omega arith)
  ]

  -- What is shown of the accepted nonces of the attempts from `m` on.
  abbrev IsFresh : ExecutionTokenManager → List String → Type 0
  IsFresh m nonces =
      Distinct nonces × ((n : String) → elem n m.used_nonces ≡ true → elem n nonces ≡ false)

  keep-IsFresh :
      (m : ExecutionTokenManager) (a : Attempt) (rest : List String)
      (result : ExecutionTokenManager × Option Refusal)
      → Outcome m a result
      → IsFresh result.0 rest
      → IsFresh m (keep result.1 a.token.nonce rest)
  unfolding Outcome
  keep-IsFresh m a rest (m', some r) same h = rw same at h
  keep-IsFresh m a rest (m', none) o h =
      let grows : (n : String)
          → elem n (a.token.nonce ∷ m.used_nonces) ≡ true
          → elem n rest ≡ false =
        rw o.1 at h.1 in
      (
        (grows a.token.nonce (rw beq_self), h.0),
        λ n old. ground (arith, grows n, ne_of_elem a.token.nonce n m.used_nonces o.0 old),
      )

  accepted-IsFresh :
      (as' : List Attempt) (m : ExecutionTokenManager)
      → m.nonce_cleanup_counter + length as' < cleanup_threshold
      → IsFresh m (accepted m as')
  accepted-IsFresh [] m h = (tt, λ n old. refl)
  accepted-IsFresh (a ∷ as') m h =
      keep-IsFresh m a (accepted (try m a).0 as') (try m a) (try-Outcome m a (omega arith))
        (accepted-IsFresh as' (try m a).0 (omega (arith, counter-try m a)))

  -- Single use: while fewer than 1000 verifications have run since the last cleanup, no nonce is
  -- accepted twice, and none that was recorded before is accepted at all, whatever the tokens,
  -- their order and their times.
  pub accepted-Distinct :
      (m : ExecutionTokenManager) (as' : List Attempt)
      → m.nonce_cleanup_counter + length as' < cleanup_threshold
      → Distinct (accepted m as')
        × ((n : String) → elem n m.used_nonces ≡ true → elem n (accepted m as') ≡ false)
  accepted-Distinct m as' h = accepted-IsFresh as' m h

  after_cleanup :
      (m : ExecutionTokenManager) (t : ExecutionToken) (expected_device : Option String) (now : ℕ)
      → m.nonce_cleanup_counter + 1 ≡ cleanup_threshold
      → (verify_token p m t expected_device now).1 ≡ none
      → let m' = (verify_token p m t expected_device now).0 in
        (m'.used_nonces ≡ []) × (m'.shared_secret ≡ m.shared_secret)
  unfolding verify_token cleanup_nonces add_nonce
  after_cleanup m t expected_device now due first =
      elim (Option-cases (refusal p m t expected_device now)) [
        | inl fine ↦ rw fine (ground arith)
        | inr (r, e) ↦ absurd (some-ne-none r (rw e at first))
      ]

  -- The verification that triggers the cleanup forgets its own nonce: on a manager with 999
  -- verifications since the last cleanup, a token that is accepted is accepted once more, at any
  -- time before it expires.
  pub replay_at_cleanup :
      (m : ExecutionTokenManager) (t : ExecutionToken) (expected_device : Option String)
      (now later : ℕ)
      → m.nonce_cleanup_counter + 1 ≡ cleanup_threshold
      → (verify_token p m t expected_device now).1 ≡ none
      → later ≤ t.expires_at
      → (verify_token p (verify_token p m t expected_device now).0 t expected_device later).1 ≡ none
  replay_at_cleanup m t expected_device now later due first in_time =
      let m' = (verify_token p m t expected_device now).0 in
      let authorised = (verify_token_iff p m t expected_device now).0.0 first in
      let (emptied, kept) = after_cleanup m t expected_device now due first in
      let same = sign_token_secret p m m' t kept in
      (verify_token_iff p m' t expected_device later).0.1 (record {
        signed = authorised.signed ∙ ap some same;
        visible = rw same at authorised.visible;
        in_time = in_time;
        unused = rw emptied;
        suits = authorised.suits;
      })
