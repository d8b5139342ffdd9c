-- ===== src/Controllers/Regional/Keeps.antt =====
-- pdsno/controllers/regional_controller.py: what the locks of proposals leave as it is.
use partially_distributed_sm.Common.{
  Bool-cases, List, Option, Option-cases, String, [], inl, inr, lookup, nat_eq, none, refl, some,
  string_eq, ℕ, ◌==◌, ◌∙◌, ◌∷◌, ◌≡◌,
}
use partially_distributed_sm.Platform.{Platform}
use partially_distributed_sm.Controllers.Regional.{
  RegionalController, acquire_proposal_lock, engine_of, is_for, is_terminal, on_acquired,
  on_existing, put_engine, release_expired_proposal_locks, release_if_over, release_over,
  release_proposal_lock,
}
use partially_distributed_sm.Nib.Store.{NibStore}
use partially_distributed_sm.Nib.Locks.{check_lock}
use partially_distributed_sm.Config.Approval.Engine.{ConfigData, Engine, get_request}
use partially_distributed_sm.Nib.Models.{Lock, LockType, Reply, result, integrity_error}
use partially_distributed_sm.Config.Approval.Request.{ApprovalRequest}

-- The classifier and the tokens are those of another state.
abbrev pub Keeps : RegionalController → RegionalController → Type 0
Keeps c c' = (c'.classifier ≡ c.classifier) × (c'.tokens ≡ c.tokens)

pub Keeps-trans : (a b c : RegionalController) → Keeps a b → Keeps b c → Keeps a c
Keeps-trans a b c (h, k) (h', k') = (h' ∙ h, k' ∙ k)

release-Keeps : (id : String) (c : RegionalController) → Keeps c (release_proposal_lock id c)
unfolding release_proposal_lock
release-Keeps id c = elim (Option-cases (lookup id c.proposal_locks)) [
  | inl absent ↦ rw (absent, release_proposal_lock) (refl, refl)
  | inr (l, there) ↦ rw (there, release_proposal_lock) (refl, refl)
]

on_acquired-Keeps :
    (w : NibStore ConfigData × Reply) (device_id id : String) (c : RegionalController)
    → Keeps c (on_acquired w device_id id c).0
on_acquired-Keeps (nib, integrity_error) device_id id c = (refl, refl)
on_acquired-Keeps (nib, result r) device_id id c = elim (Bool-cases r.success) [
  | inl done ↦ rw done (refl, refl)
  | inr undone ↦ rw undone (refl, refl)
]

pub acquire-Keeps :
    (device_id id : String) (now : ℕ → ℕ) (lock_id : String) (c : RegionalController)
    → Keeps c (acquire_proposal_lock device_id id now lock_id c).0
unfolding acquire_proposal_lock
acquire-Keeps device_id id now lock_id c =
    go (check_lock device_id LockType.config_lock (now 0) c.nib)
  where
    go : (o : Option Lock) → Keeps c (on_existing o device_id id (now 1) lock_id c).0
    go none = on_acquired-Keeps _ device_id id c
    go (some l) = elim (Bool-cases (l.held_by == c.controller_id)) [
      | inr other ↦ rw other (refl, refl)
      | inl own ↦ elim (Bool-cases (is_for id l.associated_request)) [
        | inl same ↦ rw (own, same) (refl, refl)
        | inr different ↦ rw (own, different) (on_acquired-Keeps _ device_id id c)
      ]
    ]

module _ (p : Platform) where
  release_if_over-Keeps :
      (id : String) (x : Engine × Option ApprovalRequest) (c : RegionalController)
      → Keeps c (release_if_over p id x c)
  release_if_over-Keeps id (e, none) c = release-Keeps id (put_engine e c)
  release_if_over-Keeps id (e, some r) c = elim (Bool-cases (is_terminal r.state)) [
    | inl over ↦ rw over (release-Keeps id (put_engine e c))
    | inr open_still ↦ rw open_still (refl, refl)
  ]

  release_over-Keeps : (ids : List String) (c : RegionalController) → Keeps c (release_over p ids c)
  unfolding release_over
  release_over-Keeps [] c = (refl, refl)
  release_over-Keeps (id ∷ ids) c =
      let c' = release_if_over p id (get_request p id (engine_of c)) c in
      Keeps-trans c c' (release_over p ids c')
        (release_if_over-Keeps id (get_request p id (engine_of c)) c) (release_over-Keeps ids c')

  pub release_expired-Keeps :
      (now : ℕ → ℕ) (c : RegionalController) → Keeps c (release_expired_proposal_locks p now c)
  unfolding release_expired_proposal_locks
  release_expired-Keeps now c = release_over-Keeps _ (put_engine _ c)
