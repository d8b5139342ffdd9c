-- ===== src/Nib/Locks/Tests.antt =====
-- pdsno/datastore/sqlite_store.py: locks at concrete inputs.
use partially_distributed_sm.Common.{
  List, [], arith, nat_eq, none, not, refl, some, string_eq, true, ◌*◌, ◌+◌, ◌<◌, ◌∷◌, ◌≡◌,
}
use partially_distributed_sm.Platform.{microseconds_per_second}
use partially_distributed_sm.Nib.Models.{
  Lock, config_lock, device_lock, granted, lock_held_by, lock_type_eq, refused, result,
}
use partially_distributed_sm.Nib.Store.{NibStore, empty_store}
use partially_distributed_sm.Nib.Locks.{
  LockCall, acquire, acquire_lock, check_lock, lock_calls, release,
}
use partially_distributed_sm.Nib.Locks.Exclusion.{IsExclusive, lock_calls-IsExclusive}
use partially_distributed_sm.Nib.Locks.Holding.{
  Held, acquire_lock_outcome, blocked, lock_calls-Held_refuses,
}

abbrev lock : Lock
lock = record {
  lock_id = "l1";
  subject_id = "sw";
  lock_type = config_lock;
  held_by = "rc-1";
  acquired_at = 0;
  expires_at = 5000000;
  associated_request = some "req";
}

abbrev locked : NibStore Unit
locked = record empty_store { locks = lock ∷ [] }

abbrev calls : List LockCall
calls =
    acquire "sw" config_lock "rc-2" 10 none 4000000 "l2"
    ∷ release "l1" "rc-2"
    ∷ acquire "fw" device_lock "rc-2" 10 none 4000000 "l3"
    ∷ []

locked-IsExclusive : IsExclusive locked.locks
locked-IsExclusive = (refl, refl, tt)

lock_calls-IsExclusive_example : IsExclusive (lock_calls calls locked).locks
lock_calls-IsExclusive_example = lock_calls-IsExclusive calls locked locked-IsExclusive

lock_calls-Held_refuses_example :
    let s' = lock_calls calls locked in
    ((acquire_lock "sw" config_lock "rc-3" 10 none 5000000 "l4" s').1
      ≡ result (refused (lock_held_by "rc-1")))
    × (5000000 < 5000000 → check_lock "sw" config_lock 5000000 s' ≡ some lock)
lock_calls-Held_refuses_example =
    lock_calls-Held_refuses lock calls locked "rc-3" "l4" 10 5000000 none refl
      (omega arith, (refl, (omega arith, tt))) (omega arith)

-- The expired lock is in nobody's way.
acquire_lock_outcome_example :
    let (s', r) = acquire_lock "sw" config_lock "rc-2" 10 none 6000000 "l2" locked in
    (granted r ≡ not (blocked "sw" config_lock 6000000 locked))
    × (granted r ≡ true
        → Held
            (record {
              lock_id = "l2";
              subject_id = "sw";
              lock_type = config_lock;
              held_by = "rc-2";
              acquired_at = 6000000;
              expires_at = 6000000 + 10 * microseconds_per_second;
              associated_request = none;
            })
            s')
acquire_lock_outcome_example =
    acquire_lock_outcome "sw" config_lock "rc-2" 10 none 6000000 "l2" locked locked-IsExclusive refl
