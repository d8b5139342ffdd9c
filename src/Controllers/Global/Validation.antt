-- ===== src/Controllers/Global/Validation.antt =====
-- pdsno/controllers/global_controller.py: what a granted identity takes, and what it consumes.
use partially_distributed_sm.Common.{
  Bool, Bool-cases, List, Option, Option-cases, String, ap, arith, eq_iff, false, inl, inr, lookup,
  lookup-erase_self, ltb, ltb→ge, nat_eq, none, refl, some, string_eq, true, ℕ, ◌+◌, ◌∙◌, ◌≡◌, ◌≤◌,
}
use partially_distributed_sm.Platform.{Platform, compare_digest}
use partially_distributed_sm.Controllers.Messages.{ChallengeResponse, Envelope, ValidationRequest}
use partially_distributed_sm.Controllers.Registration.{controller_record, identity_of, is_same}
use partially_distributed_sm.Nib.Models.{
  ControllerMetadata, NibResult, Reply, integrity_error, result,
}
use partially_distributed_sm.Nib.Store.{NibStore}
use partially_distributed_sm.Nib.Controllers.{upsert_controller}
use partially_distributed_sm.Config.Approval.Engine.{ConfigData}
use partially_distributed_sm.Controllers.Global.{
  Answer, GlobalController, Outcome, PendingChallenge, Verdict, accepted, admit, answer,
  assign_identity, check_policy_of, count_up, deliver, drop_challenge, grant, granted_identity,
  handle_challenge_response, judge_signature, on_verdict, raised, refused_for, register, rejected,
  type_error, verify_challenge_response, verify_pending,
}

abbrev pub is_grant : Answer → Bool
is_grant (granted_identity id c d role region) = true
is_grant _ = false

-- Whether an identity is granted.
abbrev pub is_granted : Outcome → Bool
is_granted raised = false
is_granted (answer recipient correlation a) = is_grant a

-- The answer to a challenge is the right one.
abbrev pub IsSigned : Platform → PendingChallenge → ChallengeResponse → Type 0
IsSigned p c r = r.signed_nonce ≡ some (p.hmac_text c.nonce "signed_by_controller")

pub compare_digest-true :
    (claimed : Option String) (expected : String)
    → compare_digest claimed expected ≡ some true
    → claimed ≡ some expected
unfolding compare_digest
compare_digest-true none expected h = cc
compare_digest-true (some s) expected h = ground (arith, eq_iff s expected)

module _ (p : Platform) (event_key bootstrap_secret : List ℕ) where
  -- What a response that is accepted answers: a pending challenge that has not expired, was issued
  -- to the same temporary id, and is signed.
  pub record Answers (r : ChallengeResponse) (now : ℕ) (g : GlobalController) (id : String)
      (c : PendingChallenge) : Type 0 where
    pub named : r.challenge_id ≡ some id
    pub pending : lookup id g.pending_challenges ≡ some c
    pub in_time : now ≤ c.expires_at
    pub same : is_same r.temp_id c.temp_id ≡ true
    pub signed : IsSigned p c r

  judge-accepted :
      (b : Option Bool) (r q : ValidationRequest)
      → judge_signature p event_key bootstrap_secret b r ≡ accepted q
      → (b ≡ some true) × (r ≡ q)
  judge-accepted none r q h = cc
  judge-accepted (some true) r q h = (refl, cc)
  judge-accepted (some false) r q h = cc

  -- What an accepted verdict says of the state before and after it.
  abbrev pub Accepted :
      ChallengeResponse → ℕ → GlobalController → GlobalController × Verdict → Type 0
  Accepted r now g (g', refused_for reason) = Unit
  Accepted r now g (g', type_error) = Unit
  Accepted r now g (g', accepted q) =
      (id : String) × (c : PendingChallenge) × Answers r now g id c
      × (c.original_request ≡ q)
      × (g' ≡ drop_challenge id g)

  judge-Accepted :
      (r : ChallengeResponse) (now : ℕ) (g : GlobalController) (id : String) (c : PendingChallenge)
      (b : Option Bool)
      → (b ≡ some true → Answers r now g id c)
      → Accepted r now g
          (drop_challenge id g, judge_signature p event_key bootstrap_secret b c.original_request)
  judge-Accepted r now g id c none h = tt
  judge-Accepted r now g id c (some false) h = tt
  judge-Accepted r now g id c (some true) h = (id, c, h refl, refl, refl)

  verify_pending-Accepted :
      (r : ChallengeResponse) (now : ℕ) (g : GlobalController) (id : String) (c : PendingChallenge)
      → r.challenge_id ≡ some id
      → lookup id g.pending_challenges ≡ some c
      → Accepted r now g
          (verify_pending p event_key bootstrap_secret id r.temp_id r.signed_nonce now c g)
  verify_pending-Accepted r now g id c named there = elim (Bool-cases (ltb c.expires_at now)) [
    | inl late ↦ rw late tt
    | inr timely ↦ elim (Bool-cases (is_same r.temp_id c.temp_id)) [
      | inr other ↦ rw (timely, other) tt
      | inl same ↦
          rw (timely, same)
            (judge-Accepted r now g id c _ (λ h. record {
              named = named;
              pending = there;
              in_time = ltb→ge _ _ timely;
              same = same;
              signed = compare_digest-true r.signed_nonce _ h;
            }))
    ]
  ]

  pub verify-Accepted :
      (r : ChallengeResponse) (now : ℕ) (g : GlobalController)
      → Accepted r now g (verify_challenge_response p event_key bootstrap_secret r now g)
  unfolding verify_challenge_response
  verify-Accepted r now g = elim (Option-cases r.challenge_id) [
    | inl absent ↦ simp (absent, verify_challenge_response) tt
    | inr (id, named) ↦ elim (Option-cases (lookup id g.pending_challenges)) [
      | inl unknown ↦ simp (named, unknown, verify_challenge_response) tt
      | inr (c, there) ↦
          simp (named, there, verify_challenge_response)
            (verify_pending-Accepted r now g id c named there)
    ]
  ]

  grant-pending :
      (w : NibStore ConfigData × Reply) (id role region key : String) (t : ℕ) (g : GlobalController)
      → (grant p event_key bootstrap_secret w id role region key t g).0.pending_challenges
        ≡ g.pending_challenges
  grant-pending (nib, integrity_error) id role region key t g = refl
  grant-pending (nib, result r) id role region key t g = refl

  register-pending :
      (w : NibStore ConfigData × NibResult) (eid id role region key : String) (t : ℕ)
      (g : GlobalController)
      → (register p event_key bootstrap_secret w eid id role region key t g).0.pending_challenges
        ≡ g.pending_challenges
  register-pending (nib, r) eid id role region key t g = elim (Bool-cases r.success) [
    | inl written ↦ rw written (grant-pending _ id role region key t g)
    | inr lost ↦ rw lost refl
  ]

  deliver-pending :
      (env : Envelope ChallengeResponse) (x : GlobalController × Option Answer)
      → (deliver p event_key bootstrap_secret env x).0.pending_challenges ≡ x.0.pending_challenges
  deliver-pending env (g, none) = refl
  deliver-pending env (g, some (rejected r)) = refl
  deliver-pending env (g, some _) = refl

  assign-pending :
      (role region key : String) (metadata : Option ControllerMetadata) (eid : String) (now : ℕ)
      (g : GlobalController)
      → (assign_identity p event_key bootstrap_secret role region key metadata eid now
          g).0.pending_challenges
        ≡ g.pending_challenges
  unfolding assign_identity
  assign-pending role region key metadata eid now g =
      elim (Option-cases (lookup role g.controller_sequence)) [
        | inl none_there ↦ rw (none_there, assign_identity) refl
        | inr (n, there) ↦
            rw (there, assign_identity)
              (register-pending
                (upsert_controller
                  (controller_record p (identity_of p role region (n + 1)) role region key
                    g.controller_id metadata now)
                  now g.nib)
                eid _ role region key now _)
      ]

  count_up-pending :
      (role : String) (g : GlobalController)
      → (count_up role g).pending_challenges ≡ g.pending_challenges
  count_up-pending role g = elim (Option-cases (lookup role g.controller_sequence)) [
    | inl none_there ↦ rw (none_there, count_up) refl
    | inr (n, there) ↦ rw (there, count_up) refl
  ]

  admit-pending :
      (env : Envelope ChallengeResponse) (role region key : Option String)
      (metadata : Option ControllerMetadata) (eid : String) (now : ℕ) (g : GlobalController)
      → (admit p event_key bootstrap_secret env role region key metadata eid now
          g).0.pending_challenges
        ≡ g.pending_challenges
  admit-pending env none region key metadata eid now g = refl
  admit-pending env (some role) none key metadata eid now g = refl
  admit-pending env (some role) (some region) none metadata eid now g =
      elim (Option-cases (check_policy_of role region)) [
        | inl fine ↦ rw (fine, admit) (count_up-pending role g)
        | inr (reason, e) ↦ rw (e, admit) refl
      ]
  admit-pending env (some role) (some region) (some key) metadata eid now g =
      elim (Option-cases (check_policy_of role region)) [
        | inl fine ↦
            rw (fine, admit)
              (deliver-pending env
                  (assign_identity p event_key bootstrap_secret role region key metadata eid now g)
                ∙ assign-pending role region key metadata eid now g)
        | inr (reason, e) ↦ rw (e, admit) refl
      ]

  pub on_verdict-pending :
      (env : Envelope ChallengeResponse) (eid : String) (now : ℕ) (x : GlobalController × Verdict)
      → (on_verdict p event_key bootstrap_secret env eid now x).0.pending_challenges
        ≡ x.0.pending_challenges
  on_verdict-pending env eid now (g, refused_for reason) = refl
  on_verdict-pending env eid now (g, type_error) = refl
  on_verdict-pending env eid now (g, accepted r) =
      admit-pending env r.controller_type r.region r.public_key r.metadata eid now g

  -- The request has a type and a region that the policy permits.
  abbrev pub IsPermitted : ValidationRequest → Type 0
  IsPermitted r =
      (role : String) × (region : String) × (r.controller_type ≡ some role)
      × (r.region ≡ some region)
      × (check_policy_of role region ≡ none)

  admit-granted :
      (env : Envelope ChallengeResponse) (r : ValidationRequest) (role region key : Option String)
      (metadata : Option ControllerMetadata) (eid : String) (now : ℕ) (g : GlobalController)
      → r.controller_type ≡ role
      → r.region ≡ region
      → is_granted (admit p event_key bootstrap_secret env role region key metadata eid now g).1
        ≡ true
      → IsPermitted r
  admit-granted env r none region key metadata eid now g e f h = cc
  admit-granted env r (some role) none key metadata eid now g e f h = cc
  admit-granted env r (some role) (some region) none metadata eid now g e f h =
      elim (Option-cases (check_policy_of role region)) [
        | inl fine ↦ let wrong = rw (fine, admit) at h in cc
        | inr (reason, bad) ↦ let wrong = rw (bad, admit) at h in cc
      ]
  admit-granted env r (some role) (some region) (some key) metadata eid now g e f h =
      elim (Option-cases (check_policy_of role region)) [
        | inl fine ↦ (role, region, e, f, fine)
        | inr (reason, bad) ↦ let wrong = rw (bad, admit) at h in cc
      ]

  on_verdict-granted :
      (env : Envelope ChallengeResponse) (eid : String) (now now₁ : ℕ) (g : GlobalController)
      (x : GlobalController × Verdict)
      → Accepted env.payload now g x
      → is_granted (on_verdict p event_key bootstrap_secret env eid now₁ x).1 ≡ true
      → (id : String) × (c : PendingChallenge) × Answers env.payload now g id c
        × IsPermitted c.original_request
        × (x.0 ≡ drop_challenge id g)
  on_verdict-granted env eid now now₁ g (g', refused_for reason) a h = cc
  on_verdict-granted env eid now now₁ g (g', type_error) a h = cc
  on_verdict-granted env eid now now₁ g (g', accepted q) (id, c, answers, same, dropped) h = (
    id,
    c,
    answers,
    admit-granted env c.original_request q.controller_type q.region q.public_key q.metadata eid now₁
        g' (ap (λ (r : ValidationRequest). r.controller_type) same)
        (ap (λ (r : ValidationRequest). r.region) same) h,
    dropped,
  )

  -- An identity is granted only in answer to a pending challenge that has not expired, to the
  -- temporary id that it was issued to, with the right signature, and for a type and a region that
  -- the policy permits. The challenge is consumed: it is not pending afterwards.
  pub handle_challenge_response_granted :
      (env : Envelope ChallengeResponse) (event_id : String) (now : ℕ → ℕ) (g : GlobalController)
      → is_granted (handle_challenge_response p event_key bootstrap_secret env event_id now g).1
        ≡ true
      → (id : String) × (c : PendingChallenge) × Answers env.payload (now 0) g id c
        × IsPermitted c.original_request
        × (lookup id
              (handle_challenge_response p event_key bootstrap_secret env event_id now
                g).0.pending_challenges
            ≡ none)
  unfolding handle_challenge_response
  handle_challenge_response_granted env event_id now g h =
      let x = verify_challenge_response p event_key bootstrap_secret env.payload (now 0) g in
      let (id, c, answers, permitted, dropped) =
        on_verdict-granted env event_id (now 0) (now 1) g x (verify-Accepted env.payload (now 0) g)
          h in
      (
        id,
        c,
        answers,
        permitted,
        ap (lookup id) (
              on_verdict-pending env event_id (now 1) x
              ∙ ap (λ (y : GlobalController). y.pending_challenges) dropped)
            ∙ lookup-erase_self id g.pending_challenges,
      )
