-- ===== src/Controllers/Global/Grants.antt =====
-- pdsno/controllers/global_controller.py: the type and the region of an identity that is granted.
use mathlib.Core.Path.{subst}
use partially_distributed_sm.Common.{
  Bool-cases, List, Option, Option-cases, String, ap, inl, inr, lookup, nat_eq, none, some,
  string_eq, ℕ, ◌+◌, ◌≡◌,
}
use partially_distributed_sm.Platform.{Platform}
use partially_distributed_sm.Controllers.Messages.{
  ChallengeResponse, DelegationCredential, Envelope, ValidationRequest,
}
use partially_distributed_sm.Controllers.Registration.{controller_record, identity_of}
use partially_distributed_sm.Nib.Models.{
  Certificate, ControllerMetadata, NibResult, Reply, integrity_error, result,
}
use partially_distributed_sm.Nib.Store.{NibStore}
use partially_distributed_sm.Nib.Controllers.{upsert_controller}
use partially_distributed_sm.Config.Approval.Engine.{ConfigData}
use partially_distributed_sm.Controllers.Global.{
  Answer, GlobalController, Outcome, PendingChallenge, Verdict, accepted, admit, answer,
  assign_identity, challenge, check_policy_of, deliver, grant, granted_identity,
  handle_challenge_response, on_verdict, raised, refused_for, register, rejected, type_error,
  verify_challenge_response,
}
use partially_distributed_sm.Controllers.Global.Validation.{Accepted, Answers, verify-Accepted}

-- A granted identity is of the type and the region of the request, and the policy permits them.
abbrev Explains : ValidationRequest → Answer → Type 0
Explains r (granted_identity id c d role region) =
    (r.controller_type ≡ some role)
    × (r.region ≡ some region)
    × (check_policy_of role region ≡ none)
Explains r _ = Unit

abbrev ExplainsAny : ValidationRequest → Option Answer → Type 0
ExplainsAny r none = Unit
ExplainsAny r (some a) = Explains r a

abbrev ExplainsOutcome : ValidationRequest → Outcome → Type 0
ExplainsOutcome r raised = Unit
ExplainsOutcome r (answer recipient correlation a) = Explains r a

module _ (p : Platform) (event_key bootstrap_secret : List ℕ) where
  module _ (r : ValidationRequest) (role region : String) (typed : r.controller_type ≡ some role)
      (placed : r.region ≡ some region) (permitted : check_policy_of role region ≡ none) where
    grant-Explains :
        (w : NibStore ConfigData × Reply) (id key : String) (t : ℕ) (g : GlobalController)
        → Explains r (grant p event_key bootstrap_secret w id role region key t g).1
    grant-Explains (nib, integrity_error) id key t g = tt
    grant-Explains (nib, result x) id key t g = (typed, placed, permitted)

    register-Explains :
        (w : NibStore ConfigData × NibResult) (event_id id key : String) (t : ℕ)
        (g : GlobalController)
        → Explains r (register p event_key bootstrap_secret w event_id id role region key t g).1
    register-Explains (nib, x) event_id id key t g = elim (Bool-cases x.success) [
      | inl written ↦ rw written (grant-Explains _ id key t g)
      | inr lost ↦ rw lost tt
    ]

    assign-Explains :
        (key : String) (metadata : Option ControllerMetadata) (event_id : String) (now : ℕ)
        (g : GlobalController)
        → ExplainsAny r
            (assign_identity p event_key bootstrap_secret role region key metadata event_id now g).1
    unfolding assign_identity
    assign-Explains key metadata event_id now g =
        elim (Option-cases (lookup role g.controller_sequence)) [
          | inl absent ↦ rw (absent, assign_identity) tt
          | inr (n, there) ↦
              rw (there, assign_identity)
                (register-Explains
                  (upsert_controller
                    (controller_record p (identity_of p role region (n + 1)) role region key
                      g.controller_id metadata now)
                    now g.nib)
                  event_id _ key now _)
        ]

  deliver-Explains :
      (r : ValidationRequest) (env : Envelope ChallengeResponse)
      (x : GlobalController × Option Answer)
      → ExplainsAny r x.1
      → ExplainsOutcome r (deliver p event_key bootstrap_secret env x).1
  deliver-Explains r env (g, none) h = tt
  deliver-Explains r env (g, some (granted_identity id c d role region)) h = h
  deliver-Explains r env (g, some (challenge id nonce expires)) h = tt
  deliver-Explains r env (g, some (rejected reason)) h = tt
  deliver-Explains r env (g, some (Answer.failed reason)) h = tt

  admit-Explains :
      (env : Envelope ChallengeResponse) (r : ValidationRequest) (role region key : Option String)
      (metadata : Option ControllerMetadata) (event_id : String) (now : ℕ) (g : GlobalController)
      → r.controller_type ≡ role
      → r.region ≡ region
      → ExplainsOutcome r
          (admit p event_key bootstrap_secret env role region key metadata event_id now g).1
  admit-Explains env r none region key metadata event_id now g e f = tt
  admit-Explains env r (some role) none key metadata event_id now g e f = tt
  admit-Explains env r (some role) (some region) none metadata event_id now g e f =
      elim (Option-cases (check_policy_of role region)) [
        | inl fine ↦ rw (fine, admit) tt
        | inr (reason, bad) ↦ rw (bad, admit) tt
      ]
  admit-Explains env r (some role) (some region) (some key) metadata event_id now g e f =
      elim (Option-cases (check_policy_of role region)) [
        | inl fine ↦
            rw (fine, admit)
              (deliver-Explains r env
                (assign_identity p event_key bootstrap_secret role region key metadata event_id now
                  g)
                (assign-Explains r role region e f fine key metadata event_id now g))
        | inr (reason, bad) ↦ rw (bad, admit) tt
      ]

  -- A granted identity answers a pending challenge, and is of the type and the region of its request.
  abbrev pub Grants : ChallengeResponse → ℕ → GlobalController → String → String → Type 0
  Grants r now g role region =
      (id : String) × (c : PendingChallenge) × Answers p event_key bootstrap_secret r now g id c
      × (c.original_request.controller_type ≡ some role)
      × (c.original_request.region ≡ some region)
      × (check_policy_of role region ≡ none)

  on_verdict-Grants :
      (env : Envelope ChallengeResponse) (event_id : String) (now later : ℕ) (g : GlobalController)
      (x : GlobalController × Verdict) (recipient : Option String) (correlation identity : String)
      (certificate : Certificate) (delegation : Option DelegationCredential) (role region : String)
      → Accepted p event_key bootstrap_secret env.payload now g x
      → (on_verdict p event_key bootstrap_secret env event_id later x).1
        ≡ answer recipient correlation
            (granted_identity identity certificate delegation role region)
      → Grants env.payload now g role region
  on_verdict-Grants env event_id now later g (g', refused_for reason) recipient correlation identity
        certificate delegation role region a h =
      cc
  on_verdict-Grants env event_id now later g (g', type_error) recipient correlation identity
        certificate delegation role region a h =
      cc
  on_verdict-Grants env event_id now later g (g', accepted q) recipient correlation identity
        certificate delegation role region (id, c, answers, same, dropped) h =
      let explained =
        admit-Explains env c.original_request q.controller_type q.region q.public_key q.metadata
          event_id later g' (ap (λ (r : ValidationRequest). r.controller_type) same)
          (ap (λ (r : ValidationRequest). r.region) same) in
      let (typed, placed, permitted) = subst (ExplainsOutcome c.original_request) h explained in
      (id, c, answers, typed, placed, permitted)

  pub handle_challenge_response-Grants :
      (env : Envelope ChallengeResponse) (event_id : String) (now : ℕ → ℕ) (g : GlobalController)
      (recipient : Option String) (correlation identity : String) (certificate : Certificate)
      (delegation : Option DelegationCredential) (role region : String)
      → (handle_challenge_response p event_key bootstrap_secret env event_id now g).1
        ≡ answer recipient correlation
            (granted_identity identity certificate delegation role region)
      → Grants env.payload (now 0) g role region
  unfolding handle_challenge_response
  handle_challenge_response-Grants env event_id now g recipient correlation identity certificate
        delegation role region h =
      on_verdict-Grants env event_id (now 0) (now 1) g
        (verify_challenge_response p event_key bootstrap_secret env.payload (now 0) g) recipient
        correlation identity certificate delegation role region
        (verify-Accepted p event_key bootstrap_secret env.payload (now 0) g) h
