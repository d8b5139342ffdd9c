-- ===== src/Nib/Locks/Holding.antt =====
-- pdsno/datastore/sqlite_store.py: who holds a lock, until when, and when a request is granted.
use mathlib.Core.Option.{some-injective}
use mathlib.Core.Path.{subst}
use partially_distributed_sm.Common.{
  All, Bool, Bool-cases, List, Option, Option-cases, String, [], ap, arith, delete_rows, eq_iff,
  false, find-and, find-append_none, find-append_some, find-delete_kept, find-delete_none,
  find-none_at, find_row, if◌then◌else◌, inl, inr, leb, ltb, nat_eq, none, not, refl, row_count,
  row_count-pos, some, string_eq, true, ℕ, ◌*◌, ◌+◌, ◌<◌, ◌==◌, ◌∙◌, ◌∷◌, ◌≡◌, ◌≤◌,
}
use partially_distributed_sm.Platform.{microseconds_per_second}
use partially_distributed_sm.Nib.Models.{
  Lock, LockType, granted, lock_held_by, lock_type_eq, refused, result,
}
use partially_distributed_sm.Nib.Store.{NibStore}
use partially_distributed_sm.Nib.Locks.{
  LockCall, acquire, acquire_cleaned, acquire_lock, check_lock, has_lock_id, insert_lock, is_held,
  is_on, is_stale, lock_call, lock_calls, release, release_lock,
}
use partially_distributed_sm.Nib.Locks.Exclusion.{IsExclusive}

-- The lock that a table has on a subject and type.
abbrev pub Held : {Blob : Type 0} → Lock → NibStore Blob → Type 0
Held l s = find_row (is_on l.subject_id l.lock_type) s.locks ≡ some l

-- A call that leaves the lock alone: a request that comes no later than its expiry, or a release
-- that does not name both its id and its holder.
abbrev pub Spares : Lock → LockCall → Type 0
Spares l (acquire subject_id lock_type held_by ttl request now lock_id) = now ≤ l.expires_at
Spares l (release lock_id held_by) = is_held lock_id held_by l ≡ false

find_exclusive :
    (subject_id : String) (lock_type : LockType) (q : Lock → Bool) (locks : List Lock)
    → IsExclusive locks
    → find_row (is_on subject_id lock_type) (delete_rows q locks)
      ≡ (elim (find_row (is_on subject_id lock_type) locks) [
        | none ↦ none
        | some l ↦ if q l then none else some l
      ])
find_exclusive subject_id lock_type q [] h = refl
find_exclusive subject_id lock_type q (l ∷ locks) h = ground (
  arith,
  find_exclusive subject_id lock_type q locks,
  find-delete_none (is_on subject_id lock_type) q locks,
  eq_iff l.subject_id subject_id,
  lock_type_eq.beq_iff l.lock_type lock_type,
)

module _ {Blob : Type 0} (l : Lock) where
  insert-Held :
      (new : Lock) (s cleaned : NibStore Blob)
      → Held l s
      → Held l cleaned
      → Held l (acquire_cleaned new s cleaned).0
  insert-Held new s cleaned h k =
      elim (Option-cases (find_row (is_on new.subject_id new.lock_type) cleaned.locks)) [
        | inr (other, e) ↦ rw (e, acquire_cleaned) k
        | inl free ↦ elim (Option-cases (find_row (has_lock_id new.lock_id) cleaned.locks)) [
          | inr (same, e) ↦ rw (free, acquire_cleaned, e, insert_lock) h
          | inl absent ↦
              rw (free, acquire_cleaned, absent, insert_lock)
                (find-append_some (is_on l.subject_id l.lock_type) cleaned.locks new l k)
        ]
      ]

  -- While the lock has not expired it survives the clean-up of a request.
  cleaned-Held :
      (now : ℕ) (s : NibStore Blob)
      → Held l s
      → now ≤ l.expires_at
      → Held l (record s { locks = delete_rows (is_stale now) s.locks })
  cleaned-Held now s h fresh =
      find-delete_kept (is_on l.subject_id l.lock_type) (is_stale now) s.locks l h (ground arith)

  lock_call-Held :
      (c : LockCall) (s : NibStore Blob) → Spares l c → Held l s → Held l (lock_call c s)
  unfolding lock_call acquire_lock release_lock
  lock_call-Held (acquire subject_id lock_type held_by ttl request now lock_id) s fresh h =
      insert-Held _ s (record s { locks = delete_rows (is_stale now) s.locks }) h
        (cleaned-Held now s h fresh)
  lock_call-Held (release lock_id held_by) s other h =
      ground (
        arith,
        find-delete_kept (is_on l.subject_id l.lock_type) (is_held lock_id held_by) s.locks l,
      )

  lock_calls-Held :
      (cs : List LockCall) (s : NibStore Blob)
      → All (Spares l) cs
      → Held l s
      → Held l (lock_calls cs s)
  unfolding lock_calls
  lock_calls-Held [] s spares h = h
  lock_calls-Held (c ∷ cs) s spares h =
      lock_calls-Held cs (lock_call c s) spares.1 (lock_call-Held c s spares.0 h)

  -- A held lock is safe until it expires: after any calls that are no release by its holder, made
  -- no later than its expiry, every request for its subject and type is refused with its
  -- holder's name, and `check_lock` reports it up to its last instant.
  pub lock_calls-Held_refuses :
      (cs : List LockCall) (s : NibStore Blob) (held_by lock_id : String) (ttl now : ℕ)
      (request : Option String)
      → Held l s
      → All (Spares l) cs
      → now ≤ l.expires_at
      → let s' = lock_calls cs s in
        ((acquire_lock l.subject_id l.lock_type held_by ttl request now lock_id s').1
          ≡ result (refused (lock_held_by l.held_by)))
        × (now < l.expires_at → check_lock l.subject_id l.lock_type now s' ≡ some l)
  unfolding acquire_lock check_lock
  lock_calls-Held_refuses cs s held_by lock_id ttl now request h spares fresh =
      let held = lock_calls-Held cs s spares h in
      let cleaned = cleaned-Held now (lock_calls cs s) held fresh in
      (
        rw (cleaned, acquire_cleaned) refl,
        λ live.
            find-and (is_on l.subject_id l.lock_type) (λ x. ltb now x.expires_at)
              (lock_calls cs s).locks l held (ground arith),
      )

abbrev is_some : Option Lock → Bool
is_some none = false
is_some (some l) = true

is_held-none :
    (lock_id held_by : String) (locks : List Lock)
    → find_row (has_lock_id lock_id) locks ≡ none
    → row_count (is_held lock_id held_by) locks ≡ 0
is_held-none lock_id held_by [] h = refl
is_held-none lock_id held_by (x ∷ locks) h = ground (arith, is_held-none lock_id held_by locks)

not_held :
    (p : Lock → Bool) (held_by : String) (l : Lock) (locks : List Lock)
    → IsExclusive locks
    → find_row p locks ≡ some l
    → (l.held_by == held_by) ≡ false
    → row_count (is_held l.lock_id held_by) locks ≡ 0
not_held p held_by l [] exclusive h other = refl
not_held p held_by l (x ∷ locks) exclusive h other = elim (Bool-cases (p x)) [
  | inl here ↦
      let same : x ≡ l = some-injective x l (rw here at h) in
      subst
        (λ y.
          (y.held_by == held_by) ≡ false → row_count (is_held y.lock_id held_by) (x ∷ locks) ≡ 0)
        same (λ o. ground (arith, is_held-none x.lock_id held_by locks exclusive.1)) other
  | inr later ↦ ground (
    arith,
    not_held p held_by l locks exclusive.2,
    find-none_at p (has_lock_id x.lock_id) locks l,
    eq_iff x.lock_id l.lock_id,
    eq_iff l.lock_id x.lock_id,
  )
]

module _ {Blob : Type 0} where
  -- Whether a lock stands in the way of a request at `now`.
  abbrev pub blocked : String → LockType → ℕ → NibStore Blob → Bool
  blocked subject_id lock_type now s = elim (find_row (is_on subject_id lock_type) s.locks) [
    | none ↦ false
    | some l ↦ leb now l.expires_at
  ]

  blocked-cleaned :
      (subject_id : String) (lock_type : LockType) (now : ℕ) (s : NibStore Blob)
      → IsExclusive s.locks
      → is_some (find_row (is_on subject_id lock_type) (delete_rows (is_stale now) s.locks))
        ≡ blocked subject_id lock_type now s
  blocked-cleaned subject_id lock_type now s exclusive =
      elim (Option-cases (find_row (is_on subject_id lock_type) s.locks)) [
        | inl free ↦
            ground (arith, find_exclusive subject_id lock_type (is_stale now) s.locks exclusive)
        | inr (l, e) ↦
            ground (arith, find_exclusive subject_id lock_type (is_stale now) s.locks exclusive)
      ]

  granted-cleaned :
      (new : Lock) (s cleaned : NibStore Blob)
      → find_row (has_lock_id new.lock_id) cleaned.locks ≡ none
      → find_row (is_on new.subject_id new.lock_type) cleaned.locks ≡ none
      → (granted (acquire_cleaned new s cleaned).1 ≡ true)
        × Held new (acquire_cleaned new s cleaned).0
  granted-cleaned new s cleaned id free =
      rw (free, acquire_cleaned, id, insert_lock)
        (
          refl,
          ground (
            arith,
            find-append_none (is_on new.subject_id new.lock_type) cleaned.locks new,
            eq_iff new.subject_id new.subject_id,
          ),
        )

  -- Where the locks are exclusive and the lock id is not in use, a request is granted exactly when no unexpired lock is on
  -- its subject and type. The lock that is then held names the requester and expires after the
  -- time asked for.
  pub acquire_lock_outcome :
      (subject_id : String) (lock_type : LockType) (held_by : String) (ttl : ℕ)
      (request : Option String) (now : ℕ) (lock_id : String) (s : NibStore Blob)
      → IsExclusive s.locks
      → find_row (has_lock_id lock_id) s.locks ≡ none
      → let (s', r) = acquire_lock subject_id lock_type held_by ttl request now lock_id s in
        (granted r ≡ not (blocked subject_id lock_type now s))
        × (granted r ≡ true
            → Held
                (record {
                  lock_id = lock_id;
                  subject_id = subject_id;
                  lock_type = lock_type;
                  held_by = held_by;
                  acquired_at = now;
                  expires_at = now + ttl * microseconds_per_second;
                  associated_request = request;
                })
                s')
  unfolding acquire_lock
  acquire_lock_outcome subject_id lock_type held_by ttl request now lock_id s exclusive new =
      let id = find-delete_none (has_lock_id lock_id) (is_stale now) s.locks new in
      let open_to = blocked-cleaned subject_id lock_type now s exclusive in
      elim (Option-cases
        (find_row (is_on subject_id lock_type) (delete_rows (is_stale now) s.locks))) [
          | inl free ↦
              let (won, held) = granted-cleaned _ s _ id free in
              (won ∙ ap not (rw free at open_to), λ _. held)
          | inr (other, e) ↦ rw (e, acquire_cleaned) (ap not (rw e at open_to), λ h. cc)
        ]

  -- Where the locks are exclusive, a release by a lock's id succeeds exactly if it names the holder;
  -- no lock is then on the subject and type. Any other release of the id changes nothing.
  pub release_lock_outcome :
      (l : Lock) (lock_id held_by : String) (s : NibStore Blob)
      → IsExclusive s.locks
      → Held l s
      → lock_id ≡ l.lock_id
      → let (s', r) = release_lock lock_id held_by s in
        (r.success ≡ (l.held_by == held_by))
        × (r.success ≡ false → s' ≡ s)
        × (r.success ≡ true → find_row (is_on l.subject_id l.lock_type) s'.locks ≡ none)
  unfolding release_lock
  release_lock_outcome l lock_id held_by s exclusive h e =
      elim (Bool-cases (l.held_by == held_by)) [
        | inl holder ↦
            let mine : is_held lock_id held_by l ≡ true =
              ground (arith, eq_iff l.lock_id lock_id) in
            let counted =
              row_count-pos (is_on l.subject_id l.lock_type) (is_held lock_id held_by) s.locks l h
                mine in
            let full : (row_count (is_held lock_id held_by) s.locks == 0) ≡ false = ground arith in
            let gone =
              find_exclusive l.subject_id l.lock_type (is_held lock_id held_by) s.locks exclusive in
            rw (full, holder) (refl, λ x. cc, λ _. ground arith)
        | inr other ↦
            rw
              (
                e,
                not_held (is_on l.subject_id l.lock_type) held_by l s.locks exclusive h other,
                other,
              )
              (refl, λ _. refl, λ x. cc)
      ]
