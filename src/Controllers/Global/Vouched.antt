-- ===== src/Controllers/Global/Vouched.antt =====
-- pdsno/controllers/global_controller.py: what a global controller that has handled any requests and
-- answers knows of the challenges that are pending.
use mathlib.Core.Path.{subst}
use mathlib.Core.Option.{some-injective}
use mathlib.Core.List.{Mem, mem-cons_self, mem-cons_of_mem}
use partially_distributed_sm.Common.{
  All, Bool, Bool-cases, Dict, List, Option, Option-cases, String, [], ap, eq_iff, erase, false,
  inl, inr, insert, lookup, lookup-erase, lookup-insert, ltb, nat_eq, none, refl, some, string_eq,
  sym, true, ℕ, ◌+◌, ◌==◌, ◌∙◌, ◌∷◌, ◌≡◌, ◌≤◌,
}
use partially_distributed_sm.Platform.{Platform}
use partially_distributed_sm.Controllers.Messages.{
  ChallengeResponse, DelegationCredential, Envelope, ValidationRequest,
}
use partially_distributed_sm.Controllers.Registration.{is_same}
use partially_distributed_sm.Nib.Models.{Certificate}
use partially_distributed_sm.Nib.Store.{NibStore}
use partially_distributed_sm.Config.Approval.Engine.{ConfigData}
use partially_distributed_sm.Controllers.Global.{
  GlobalController, PendingChallenge, Reason, answer, bootstrap_token_of, challenge_timeout,
  check_policy_of, check_timestamp, granted_identity, handle_challenge_response,
  handle_validation_request, issue_challenge, new_global_controller, on_bootstrap, on_timestamp,
  verify_bootstrap_token, verify_challenge_response, verify_pending,
}
use partially_distributed_sm.Controllers.Global.Validation.{compare_digest-true, on_verdict-pending}
use partially_distributed_sm.Controllers.Global.Grants.{handle_challenge_response-Grants}

-- The calls of the two handlers.
pub data GcCall : Type 0 where
  request : Envelope ValidationRequest → String → List ℕ → (ℕ → ℕ) → GcCall
  respond : Envelope ChallengeResponse → String → (ℕ → ℕ) → GcCall

module _ (p : Platform) (event_key bootstrap_secret : List ℕ) where
  unfoldable pub gc_call : GcCall → GlobalController → GlobalController
  gc_call (request env challenge_id nonce now) g =
      (handle_validation_request p event_key bootstrap_secret env challenge_id nonce now g).0
  gc_call (respond env event_id now) g =
      (handle_challenge_response p event_key bootstrap_secret env event_id now g).0

  unfoldable pub gc_calls : List GcCall → GlobalController → GlobalController
  gc_calls [] g = g
  gc_calls (c ∷ cs) g = gc_calls cs (gc_call c g)

  -- The challenge that a request is given.
  abbrev challenge_for :
      Envelope ValidationRequest → String → String → List ℕ → ℕ → PendingChallenge
  challenge_for env temp_id public_key nonce now = record {
    temp_id = temp_id;
    nonce = nonce;
    public_key = public_key;
    expires_at = now + challenge_timeout;
    original_request = env.payload;
  }

  module _ (Q : String → PendingChallenge → Type 0) where
    -- Every pending challenge has the property.
    abbrev Holds : Dict String PendingChallenge → Type 0
    Holds d = (id : String) (c : PendingChallenge) → lookup id d ≡ some c → Q id c

    -- The challenge of a request has the property.
    abbrev Fits : Envelope ValidationRequest → String → List ℕ → ℕ → Type 0
    Fits env challenge_id nonce now =
        (temp_id public_key : String)
        → env.payload.temp_id ≡ some temp_id
        → Q challenge_id (challenge_for env temp_id public_key nonce now)

    -- If the request of a call is in time and has the right token, its challenge has the property.
    abbrev Introduces : GcCall → Type 0
    Introduces (request env challenge_id nonce now) =
        check_timestamp env.timestamp (now 0) ≡ none
        → verify_bootstrap_token p event_key bootstrap_secret env.payload ≡ some true
        → Fits env challenge_id nonce (now 1)
    Introduces (respond env event_id now) = Unit

    insert-Holds :
        (k : String) (c : PendingChallenge) (d : Dict String PendingChallenge)
        → Q k c
        → Holds d
        → Holds (insert k c d)
    insert-Holds k c d new old id c' h =
        let e = sym (lookup-insert k id c d) ∙ h in
        elim (Bool-cases (k == id)) [
          | inl same ↦
              let f = rw same at e in
              subst (Q id) (some-injective c c' f)
                (subst (λ (j : String). Q j c) ((eq_iff k id).0 same) new)
          | inr other ↦ old id c' (rw other at e)
        ]

    erase-Holds : (k : String) (d : Dict String PendingChallenge) → Holds d → Holds (erase k d)
    erase-Holds k d old id c' h =
        let e = sym (lookup-erase k id d) ∙ h in
        elim (Bool-cases (k == id)) [
          | inl same ↦ let f = rw same at e in cc
          | inr other ↦ old id c' (rw other at e)
        ]

    issue-Holds :
        (env : Envelope ValidationRequest) (temp_id key : Option String) (challenge_id : String)
        (nonce : List ℕ) (now : ℕ) (g : GlobalController)
        → env.payload.temp_id ≡ temp_id
        → env.payload.public_key ≡ key
        → Fits env challenge_id nonce now
        → Holds g.pending_challenges
        → Holds
            (issue_challenge p event_key bootstrap_secret env challenge_id nonce now
              g).0.pending_challenges
    unfolding issue_challenge
    issue-Holds env none key challenge_id nonce now g e f v old = simp (e, issue_challenge) old
    issue-Holds env (some t) none challenge_id nonce now g e f v old =
        simp (e, f, issue_challenge) old
    issue-Holds env (some t) (some k) challenge_id nonce now g e f v old =
        simp (e, f, issue_challenge)
          (insert-Holds challenge_id _ g.pending_challenges (v t k e) old)

    on_bootstrap-Holds :
        (b : Option Bool) (env : Envelope ValidationRequest) (challenge_id : String)
        (nonce : List ℕ) (now : ℕ) (g : GlobalController)
        → (b ≡ some true → Fits env challenge_id nonce now)
        → Holds g.pending_challenges
        → Holds
            (on_bootstrap p event_key bootstrap_secret b env challenge_id nonce now
              g).0.pending_challenges
    on_bootstrap-Holds none env challenge_id nonce now g e old = old
    on_bootstrap-Holds (some false) env challenge_id nonce now g e old = old
    on_bootstrap-Holds (some true) env challenge_id nonce now g e old =
        issue-Holds env _ _ challenge_id nonce now g refl refl (e refl) old

    on_timestamp-Holds :
        (t : Option Reason) (env : Envelope ValidationRequest) (challenge_id : String)
        (nonce : List ℕ) (now : ℕ) (g : GlobalController)
        → (t ≡ none
            → verify_bootstrap_token p event_key bootstrap_secret env.payload ≡ some true
            → Fits env challenge_id nonce now)
        → Holds g.pending_challenges
        → Holds
            (on_timestamp p event_key bootstrap_secret t env challenge_id nonce now
              g).0.pending_challenges
    on_timestamp-Holds (some reason) env challenge_id nonce now g new old = old
    on_timestamp-Holds none env challenge_id nonce now g new old =
        on_bootstrap-Holds _ env challenge_id nonce now g (new refl) old

    verify_pending-Holds :
        (id : String) (temp_id signed : Option String) (now : ℕ) (c : PendingChallenge)
        (g : GlobalController)
        → Holds g.pending_challenges
        → Holds
            (verify_pending p event_key bootstrap_secret id temp_id signed now c
              g).0.pending_challenges
    verify_pending-Holds id temp_id signed now c g old = elim (Bool-cases (ltb c.expires_at now)) [
      | inl late ↦ rw late (erase-Holds id g.pending_challenges old)
      | inr timely ↦ elim (Bool-cases (is_same temp_id c.temp_id)) [
        | inl same ↦ rw (timely, same) (erase-Holds id g.pending_challenges old)
        | inr other ↦ rw (timely, other) old
      ]
    ]

    verify-Holds :
        (r : ChallengeResponse) (now : ℕ) (g : GlobalController)
        → Holds g.pending_challenges
        → Holds
            (verify_challenge_response p event_key bootstrap_secret r now g).0.pending_challenges
    unfolding verify_challenge_response
    verify-Holds r now g old = elim (Option-cases r.challenge_id) [
      | inl absent ↦ simp (absent, verify_challenge_response) old
      | inr (id, named) ↦ elim (Option-cases (lookup id g.pending_challenges)) [
        | inl unknown ↦ simp (named, unknown, verify_challenge_response) old
        | inr (c, there) ↦
            simp (named, there, verify_challenge_response)
              (verify_pending-Holds id r.temp_id r.signed_nonce now c g old)
      ]
    ]

    gc_call-Holds :
        (c : GcCall) (g : GlobalController)
        → Introduces c
        → Holds g.pending_challenges
        → Holds (gc_call c g).pending_challenges
    unfolding gc_call handle_validation_request handle_challenge_response
    gc_call-Holds (request env challenge_id nonce now) g new old =
        on_timestamp-Holds _ env challenge_id nonce (now 1) g new old
    gc_call-Holds (respond env event_id now) g new old =
        let x = verify_challenge_response p event_key bootstrap_secret env.payload (now 0) g in
        subst Holds (sym (on_verdict-pending p event_key bootstrap_secret env event_id (now 1) x))
          (verify-Holds env.payload (now 0) g old)

    gc_calls-Holds :
        (cs : List GcCall) (g : GlobalController)
        → All Introduces cs
        → Holds g.pending_challenges
        → Holds (gc_calls cs g).pending_challenges
    unfolding gc_calls
    gc_calls-Holds [] g new old = old
    gc_calls-Holds (c ∷ cs) g (new, rest) old =
        gc_calls-Holds cs (gc_call c g) rest (gc_call-Holds c g new old)

  -- The challenge was issued in one of the calls, for a request that was in time and had the right
  -- bootstrap token.
  pub record IsIssued (cs : List GcCall) (id : String) (c : PendingChallenge) : Type 0 where
    pub asked : Envelope ValidationRequest
    pub clock : ℕ → ℕ
    pub made : Mem (request asked id c.nonce clock) cs
    pub fresh : check_timestamp asked.timestamp (clock 0) ≡ none
    pub vouched : verify_bootstrap_token p event_key bootstrap_secret asked.payload ≡ some true
    pub named : asked.payload.temp_id ≡ some c.temp_id
    pub until : c.expires_at ≡ clock 1 + challenge_timeout
    pub same_request : c.original_request ≡ asked.payload

  introduced : (all : List GcCall) (c : GcCall) → Mem c all → Introduces (IsIssued all) c
  introduced all (respond env event_id now) m = tt
  introduced all (request env challenge_id nonce now) m = λ fresh vouched temp_id public_key named.
      record {
        asked = env;
        clock = now;
        made = m;
        fresh = fresh;
        vouched = vouched;
        named = named;
        until = refl;
        same_request = refl;
      }

  All-introduced :
      (all cs : List GcCall)
      → ((c : GcCall) → Mem c cs → Mem c all)
      → All (Introduces (IsIssued all)) cs
  All-introduced all [] within = tt
  All-introduced all (c ∷ cs) within = (
    introduced all c (within c mem-cons_self),
    All-introduced all cs (λ d m. within d (mem-cons_of_mem c m)),
  )

  new-Holds :
      (Q : String → PendingChallenge → Type 0) (id : String) (nib : NibStore ConfigData)
      → Holds Q (new_global_controller id nib).pending_challenges
  unfolding new_global_controller lookup
  new-Holds Q id nib k c h = cc

  same_temp_id : (t : Option String) (u : String) → is_same t u ≡ true → t ≡ some u
  same_temp_id none u h = cc
  same_temp_id (some t) u h = ap some ((eq_iff t u).0 h)

  token_of :
      (r : ValidationRequest) (role region : String)
      → verify_bootstrap_token p event_key bootstrap_secret r ≡ some true
      → r.controller_type ≡ some role
      → r.region ≡ some region
      → r.bootstrap_token
        ≡ some (bootstrap_token_of p event_key bootstrap_secret r.temp_id (some region) (some role))
  unfolding verify_bootstrap_token
  token_of r role region vouched typed placed =
      compare_digest-true r.bootstrap_token _ vouched
      ∙ ap
          (λ (x : Option String).
            some (bootstrap_token_of p event_key bootstrap_secret r.temp_id x r.controller_type))
          placed
      ∙ ap
          (λ (x : Option String).
            some (bootstrap_token_of p event_key bootstrap_secret r.temp_id (some region) x))
          typed

  -- When a new global controller that has handled any requests and answers grants an identity in
  -- answer to a challenge, then one of the requests that it has handled was given that challenge: a
  -- request of the same temporary id, which was in time and had the bootstrap token of that id and of
  -- the type and the region of the granted identity, and the policy permits these. The answer came
  -- within the time of the challenge, and has the digest of the challenge's nonce.
  pub gc_calls_granted :
      (id : String) (nib : NibStore ConfigData) (cs : List GcCall)
      (env : Envelope ChallengeResponse) (event_id : String) (now : ℕ → ℕ)
      (recipient : Option String) (correlation identity : String) (certificate : Certificate)
      (delegation : Option DelegationCredential) (role region : String)
      → (handle_challenge_response p event_key bootstrap_secret env event_id now
          (gc_calls cs (new_global_controller id nib))).1
        ≡ answer recipient correlation
            (granted_identity identity certificate delegation role region)
      → (challenge_id : String) × (asked : Envelope ValidationRequest) × (nonce : List ℕ)
        × (clock : ℕ → ℕ) × Mem (request asked challenge_id nonce clock) cs
        × (env.payload.challenge_id ≡ some challenge_id)
        × (env.payload.temp_id ≡ asked.payload.temp_id)
        × (env.payload.signed_nonce ≡ some (p.hmac_text nonce "signed_by_controller"))
        × (now 0 ≤ clock 1 + challenge_timeout)
        × (check_timestamp asked.timestamp (clock 0) ≡ none)
        × (asked.payload.controller_type ≡ some role)
        × (asked.payload.region ≡ some region)
        × (asked.payload.bootstrap_token
            ≡ some (
                bootstrap_token_of p event_key bootstrap_secret asked.payload.temp_id
                  (some region)
                  (some role)))
        × (check_policy_of role region ≡ none)
  gc_calls_granted id nib cs env event_id now recipient correlation identity certificate delegation
        role region h =
      let start = new_global_controller id nib in
      let (k, c, answers, typed, placed, permitted) =
        handle_challenge_response-Grants p event_key bootstrap_secret env event_id now
          (gc_calls cs start) recipient correlation identity certificate delegation role region h in
      let issued =
        gc_calls-Holds (IsIssued cs) cs start (All-introduced cs cs (λ d m. m))
          (new-Holds (IsIssued cs) id nib) k c answers.pending in
      let typed' =
        ap (λ (r : ValidationRequest). r.controller_type) (sym issued.same_request) ∙ typed in
      let placed' = ap (λ (r : ValidationRequest). r.region) (sym issued.same_request) ∙ placed in
      (
        k,
        issued.asked,
        c.nonce,
        issued.clock,
        issued.made,
        answers.named,
        same_temp_id env.payload.temp_id c.temp_id answers.same ∙ sym issued.named,
        answers.signed,
        rw⁻¹ issued.until answers.in_time,
        issued.fresh,
        typed',
        placed',
        token_of issued.asked.payload role region issued.vouched typed' placed',
        permitted,
      )
