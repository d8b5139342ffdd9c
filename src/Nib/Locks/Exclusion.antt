-- ===== src/Nib/Locks/Exclusion.antt =====
-- pdsno/datastore/sqlite_store.py: the locks on one subject and type.
use partially_distributed_sm.Common.{
  Bool, List, Option-cases, [], arith, delete_rows, eq_iff, find-append_none, find-delete_none,
  find_row, inl, inr, nat_eq, none, refl, string_eq, ◌++◌, ◌∷◌, ◌≡◌,
}
use partially_distributed_sm.Nib.Models.{Lock, lock_type_eq}
use partially_distributed_sm.Nib.Store.{NibStore}
use partially_distributed_sm.Nib.Locks.{
  LockCall, acquire, acquire_cleaned, acquire_lock, has_lock_id, insert_lock, is_held, is_on,
  is_stale, lock_call, lock_calls, release, release_lock,
}

-- No two locks have one subject and type, and none two share an id.
abbrev pub IsExclusive : List Lock → Type 0
IsExclusive [] = Unit
IsExclusive (l ∷ locks) =
    (find_row (is_on l.subject_id l.lock_type) locks ≡ none)
    × (find_row (has_lock_id l.lock_id) locks ≡ none)
    × IsExclusive locks

IsExclusive-delete :
    (q : Lock → Bool) (locks : List Lock) → IsExclusive locks → IsExclusive (delete_rows q locks)
IsExclusive-delete q [] h = tt
IsExclusive-delete q (l ∷ locks) h = ground (
  arith,
  find-delete_none (is_on l.subject_id l.lock_type) q locks,
  find-delete_none (has_lock_id l.lock_id) q locks,
  IsExclusive-delete q locks,
)

IsExclusive-append :
    (locks : List Lock) (l : Lock)
    → IsExclusive locks
    → find_row (is_on l.subject_id l.lock_type) locks ≡ none
    → find_row (has_lock_id l.lock_id) locks ≡ none
    → IsExclusive (locks ++ l ∷ [])
IsExclusive-append [] l h e i = (refl, refl, tt)
IsExclusive-append (x ∷ locks) l h e i = ground (
  arith,
  find-append_none (is_on x.subject_id x.lock_type) locks l,
  find-append_none (has_lock_id x.lock_id) locks l,
  eq_iff x.subject_id l.subject_id,
  eq_iff l.subject_id x.subject_id,
  eq_iff x.lock_id l.lock_id,
  eq_iff l.lock_id x.lock_id,
  IsExclusive-append locks l,
)

module _ {Blob : Type 0} where
  acquire-IsExclusive :
      (l : Lock) (s cleaned : NibStore Blob)
      → IsExclusive s.locks
      → IsExclusive cleaned.locks
      → IsExclusive (acquire_cleaned l s cleaned).0.locks
  acquire-IsExclusive l s cleaned h k =
      elim (Option-cases (find_row (is_on l.subject_id l.lock_type) cleaned.locks)) [
        | inr (other, e) ↦ rw (e, acquire_cleaned) k
        | inl free ↦ elim (Option-cases (find_row (has_lock_id l.lock_id) cleaned.locks)) [
          | inr (same, e) ↦ rw (free, acquire_cleaned, e, insert_lock) h
          | inl new ↦
              rw (free, acquire_cleaned, new, insert_lock)
                (IsExclusive-append cleaned.locks l k free new)
        ]
      ]

  pub lock_call-IsExclusive :
      (c : LockCall) (s : NibStore Blob) → IsExclusive s.locks → IsExclusive (lock_call c s).locks
  unfolding lock_call acquire_lock release_lock
  lock_call-IsExclusive (acquire subject_id lock_type held_by ttl request now lock_id) s h =
      acquire-IsExclusive _ s (record s { locks = delete_rows (is_stale now) s.locks }) h
        (IsExclusive-delete (is_stale now) s.locks h)
  lock_call-IsExclusive (release lock_id held_by) s h =
      ground (arith, IsExclusive-delete (is_held lock_id held_by) s.locks h)

  -- Whatever calls come, in whatever order and at whatever times, if no subject is locked twice for
  -- one type and no lock id is in use twice, that stays so.
  pub lock_calls-IsExclusive :
      (cs : List LockCall) (s : NibStore Blob)
      → IsExclusive s.locks
      → IsExclusive (lock_calls cs s).locks
  unfolding lock_calls
  lock_calls-IsExclusive [] s h = h
  lock_calls-IsExclusive (c ∷ cs) s h =
      lock_calls-IsExclusive cs (lock_call c s) (lock_call-IsExclusive c s h)
