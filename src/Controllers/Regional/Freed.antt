-- ===== src/Controllers/Regional/Freed.antt =====
-- pdsno/controllers/regional_controller.py: the lock of a proposal, in the controller's table and in the
-- store, when it is taken and when it is given back.
use partially_distributed_sm.Common.{
  Bool-cases, Option, Option-cases, String, arith, delete_rows, find-delete_gone, find_row,
  find_row-holds, inl, inr, lookup, lookup-erase_self, lookup-insert_self, nat_eq, non_empty, none,
  refl, row_count, row_count-pos, some, string_eq, sym, true, ℕ, ◌*◌, ◌+◌, ◌==◌, ◌∙◌, ◌≡◌,
}
use partially_distributed_sm.Platform.{microseconds_per_second}
use partially_distributed_sm.Controllers.Regional.{
  ProposalLock, RegionalController, acquire_new, acquire_proposal_lock, is_for, locked, on_acquired,
  on_existing, release_held, release_proposal_lock,
}
use partially_distributed_sm.Nib.Models.{
  Lock, LockType, Reply, integrity_error, lock_type_eq, result,
}
use partially_distributed_sm.Nib.Store.{NibStore}
use partially_distributed_sm.Nib.Locks.{
  acquire_cleaned, acquire_lock, check_lock, has_lock_id, insert_lock, is_held, is_on, is_stale,
  release_lock,
}
use partially_distributed_sm.Config.Approval.Engine.{ConfigData}

-- The entry of a proposal whose lock has an id.
abbrev pub entry_of : String → String → ProposalLock
entry_of lock_id device_id = record { lock_id = some lock_id; device_id = device_id }

-- The table has the proposal's lock.
abbrev pub IsNoted : String → String → RegionalController → Type 0
IsNoted id device_id c =
    (lock_id : String) × (lookup id c.proposal_locks ≡ some (entry_of lock_id device_id))

-- A lock that is given has the id that it was asked for with.
abbrev Gives : String → NibStore ConfigData × Reply → Type 0
Gives lock_id (nib, integrity_error) = Unit
Gives lock_id (nib, result r) = r.success ≡ true → r.value ≡ some lock_id

insert_lock-Gives :
    (l : Lock) (s cleaned : NibStore ConfigData) → Gives l.lock_id (insert_lock l s cleaned)
insert_lock-Gives l s cleaned =
    elim (Option-cases (find_row (has_lock_id l.lock_id) cleaned.locks)) [
      | inl free ↦ rw (free, insert_lock) (λ done. refl)
      | inr (other, taken) ↦ rw (taken, insert_lock) tt
    ]

acquire_cleaned-Gives :
    (l : Lock) (s cleaned : NibStore ConfigData) → Gives l.lock_id (acquire_cleaned l s cleaned)
acquire_cleaned-Gives l s cleaned =
    elim (Option-cases (find_row (is_on l.subject_id l.lock_type) cleaned.locks)) [
      | inl free ↦ rw (free, acquire_cleaned) (insert_lock-Gives l s cleaned)
      | inr (other, there) ↦ rw (there, acquire_cleaned) (λ done. cc)
    ]

acquire_lock-Gives :
    (device_id id held_by : String) (now : ℕ) (lock_id : String) (s : NibStore ConfigData)
    → Gives lock_id
        (acquire_lock device_id LockType.config_lock held_by 900 (some id) now lock_id s)
unfolding acquire_lock
acquire_lock-Gives device_id id held_by now lock_id s =
    let wanted : Lock = record {
      lock_id = lock_id;
      subject_id = device_id;
      lock_type = LockType.config_lock;
      held_by = held_by;
      acquired_at = now;
      expires_at = now + 900 * microseconds_per_second;
      associated_request = some id;
    } in
    acquire_cleaned-Gives wanted s (record s { locks = delete_rows (is_stale now) s.locks })

on_acquired-IsNoted :
    (w : NibStore ConfigData × Reply) (device_id id lock_id : String) (c : RegionalController)
    → Gives lock_id w
    → (on_acquired w device_id id c).1 ≡ locked
    → IsNoted id device_id (on_acquired w device_id id c).0
on_acquired-IsNoted (nib, integrity_error) device_id id lock_id c gives h = cc
on_acquired-IsNoted (nib, result r) device_id id lock_id c gives h = elim (Bool-cases r.success) [
  | inr undone ↦ let wrong = rw undone at h in cc
  | inl done ↦
      rw (done, gives done)
        (lock_id, lookup-insert_self id (entry_of lock_id device_id) c.proposal_locks)
]

pub acquire-IsNoted :
    (device_id id : String) (now : ℕ → ℕ) (lock_id : String) (c : RegionalController)
    → (acquire_proposal_lock device_id id now lock_id c).1 ≡ locked
    → IsNoted id device_id (acquire_proposal_lock device_id id now lock_id c).0
unfolding acquire_proposal_lock
acquire-IsNoted device_id id now lock_id c =
    go (check_lock device_id LockType.config_lock (now 0) c.nib)
  where
    newly :
        (acquire_new device_id id (now 1) lock_id c).1 ≡ locked
        → IsNoted id device_id (acquire_new device_id id (now 1) lock_id c).0
    newly =
        on_acquired-IsNoted _ device_id id lock_id c
          (acquire_lock-Gives device_id id c.controller_id (now 1) lock_id c.nib)

    go :
        (o : Option Lock)
        → (on_existing o device_id id (now 1) lock_id c).1 ≡ locked
        → IsNoted id device_id (on_existing o device_id id (now 1) lock_id c).0
    go none = newly
    go (some l) = elim (Bool-cases (l.held_by == c.controller_id)) [
      | inr other ↦ rw other (λ h. cc)
      | inl own ↦ elim (Bool-cases (is_for id l.associated_request)) [
        | inl same ↦
            rw (own, same)
              (λ h.
                (l.lock_id, lookup-insert_self id (entry_of l.lock_id device_id) c.proposal_locks))
        | inr different ↦ rw (own, different) newly
      ]
    ]

release_lock-gone :
    (lock_id held_by : String) (s : NibStore ConfigData)
    → find_row (is_held lock_id held_by) (release_lock lock_id held_by s).0.locks ≡ none
unfolding release_lock
release_lock-gone lock_id held_by s =
    elim (Bool-cases (row_count (is_held lock_id held_by) s.locks == 0)) [
      | inl absent ↦ rw absent (elim (Option-cases (find_row (is_held lock_id held_by) s.locks)) [
        | inl gone ↦ gone
        | inr (l, there) ↦ absurd (
            row_count-pos (is_held lock_id held_by) (is_held lock_id held_by) s.locks l there
              (find_row-holds (is_held lock_id held_by) s.locks l there) (ground (arith, absent)))
      ])
      | inr there ↦
          rw there
            (elim (Option-cases (
              find_row (is_held lock_id held_by) (delete_rows (is_held lock_id held_by) s.locks))) [
                | inl gone ↦ gone
                | inr (l, left) ↦
                    let (holds, fails) =
                      find-delete_gone (is_held lock_id held_by) (is_held lock_id held_by) s.locks l
                        left in
                    let wrong = sym holds ∙ fails in cc
              ])
    ]

-- The store has no lock of this id that the controller holds.
abbrev IsFree : Option String → String → NibStore ConfigData → Type 0
IsFree none held_by nib = Unit
IsFree (some lock_id) held_by nib =
    non_empty lock_id ≡ true → find_row (is_held lock_id held_by) nib.locks ≡ none

-- The same of an entry of the table.
abbrev pub IsFreed : Option ProposalLock → String → NibStore ConfigData → Type 0
IsFreed none held_by nib = Unit
IsFreed (some l) held_by nib = IsFree l.lock_id held_by nib

release_held-IsFree :
    (o : Option String) (held_by : String) (nib : NibStore ConfigData)
    → IsFree o held_by (release_held o held_by nib)
release_held-IsFree none held_by nib = tt
release_held-IsFree (some lock_id) held_by nib =
    λ set. rw set (release_lock-gone lock_id held_by nib)

pub release-IsFreed :
    (id : String) (c : RegionalController)
    → (lookup id (release_proposal_lock id c).proposal_locks ≡ none)
      × IsFreed (lookup id c.proposal_locks) c.controller_id (release_proposal_lock id c).nib
unfolding release_proposal_lock
release-IsFreed id c = elim (Option-cases (lookup id c.proposal_locks)) [
  | inl absent ↦ simp (absent, release_proposal_lock) (refl, tt)
  | inr (l, there) ↦
      rw (there, release_proposal_lock)
        (lookup-erase_self id c.proposal_locks, release_held-IsFree l.lock_id c.controller_id c.nib)
]
