-- ===== src/Nib/Locks.antt =====
-- pdsno/datastore/sqlite_store.py: the coordination locks, which expire by themselves.
pub mod Exclusion
pub mod Holding
mod Tests
use partially_distributed_sm.Common.{
  Bool, List, Option, String, [], delete_rows, find_row, if◌then◌else◌, ltb, nat_eq, none,
  row_count, some, string_eq, ℕ, ◌&&◌, ◌*◌, ◌++◌, ◌+◌, ◌==◌, ◌∷◌,
}
use partially_distributed_sm.Platform.{microseconds_per_second}
use partially_distributed_sm.Nib.Models.{
  Lock, LockType, NibResult, Reply, integrity_error, lock_held_by, lock_not_held, lock_type_eq,
  refused, result, succeeded,
}
use partially_distributed_sm.Nib.Store.{NibStore}

-- `WHERE subject_id = ? AND lock_type = ?`
abbrev pub is_on : String → LockType → Lock → Bool
is_on subject_id lock_type l = l.subject_id == subject_id && l.lock_type == lock_type

-- `WHERE expires_at < ?`
abbrev pub is_stale : ℕ → Lock → Bool
is_stale now l = ltb l.expires_at now

abbrev pub has_lock_id : String → Lock → Bool
has_lock_id lock_id l = l.lock_id == lock_id

-- `WHERE lock_id = ? AND held_by = ?`
abbrev pub is_held : String → String → Lock → Bool
is_held lock_id held_by l = l.lock_id == lock_id && l.held_by == held_by

-- The calls that change the locks.
pub data LockCall : Type 0 where
  acquire : String → LockType → String → ℕ → Option String → ℕ → String → LockCall
  release : String → String → LockCall

module _ {Blob : Type 0} where
  -- The `INSERT` of `acquire_lock`; an exception rolls the clean-up back.
  abbrev pub insert_lock : Lock → NibStore Blob → NibStore Blob → NibStore Blob × Reply
  insert_lock l s cleaned = elim (find_row (has_lock_id l.lock_id) cleaned.locks) [
    | some _ ↦ (s, integrity_error)
    | none ↦
        (record cleaned { locks = cleaned.locks ++ l ∷ [] }, result (succeeded (some l.lock_id)))
  ]

  abbrev pub acquire_cleaned : Lock → NibStore Blob → NibStore Blob → NibStore Blob × Reply
  acquire_cleaned l s cleaned = elim (find_row (is_on l.subject_id l.lock_type) cleaned.locks) [
    | some other ↦ (cleaned, result (refused (lock_held_by other.held_by)))
    | none ↦ insert_lock l s cleaned
  ]

  -- `lock_id` is made by `uuid`, `now` is the clock.
  unfoldable pub acquire_lock :
      String
      → LockType
      → String
      → ℕ
      → Option String
      → ℕ
      → String
      → NibStore Blob
      → NibStore Blob × Reply
  acquire_lock subject_id lock_type held_by ttl_seconds associated_request now lock_id s =
      acquire_cleaned wanted s (record s { locks = delete_rows (is_stale now) s.locks })
    where
      wanted : Lock
      wanted = record {
        lock_id = lock_id;
        subject_id = subject_id;
        lock_type = lock_type;
        held_by = held_by;
        acquired_at = now;
        expires_at = now + ttl_seconds * microseconds_per_second;
        associated_request = associated_request;
      }

  unfoldable pub release_lock : String → String → NibStore Blob → NibStore Blob × NibResult
  release_lock lock_id held_by s =
      if row_count (is_held lock_id held_by) s.locks == 0
      then (s, refused lock_not_held)
      else (record s { locks = delete_rows (is_held lock_id held_by) s.locks }, succeeded none)

  unfoldable pub check_lock : String → LockType → ℕ → NibStore Blob → Option Lock
  check_lock subject_id lock_type now s =
      find_row (λ l. is_on subject_id lock_type l && ltb now l.expires_at) s.locks

  unfoldable pub lock_call : LockCall → NibStore Blob → NibStore Blob
  lock_call (acquire subject_id lock_type held_by ttl request now lock_id) s =
      (acquire_lock subject_id lock_type held_by ttl request now lock_id s).0
  lock_call (release lock_id held_by) s = (release_lock lock_id held_by s).0

  unfoldable pub lock_calls : List LockCall → NibStore Blob → NibStore Blob
  lock_calls [] s = s
  lock_calls (c ∷ cs) s = lock_calls cs (lock_call c s)
