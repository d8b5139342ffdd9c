-- ===== src/Config/Lifecycle/History.antt =====
-- pdsno/config/config_state.py: the list of transitions, and how it relates to the state.
use partially_distributed_sm.Common.{
  Bool-cases, List, String, [], arith, inl, inr, refl, true, ℕ, ◌++◌, ◌∷◌, ◌≡◌,
}
use partially_distributed_sm.Config.Lifecycle.{
  Call, ConfigState, ConfigStateMachine, ConfigTransition, call, is_valid_transition, move,
  new_machine, note, run, set_state_metadata, transition,
}

-- The transitions lead from `s` to `t`, each from where the one before it ended, and each allowed.
abbrev pub IsChain : ConfigState → List ConfigTransition → ConfigState → Type 0
IsChain s [] t = s ≡ t
IsChain s (e ∷ h) t =
    (e.from_state ≡ s)
    × (is_valid_transition e.from_state e.to_state ≡ true)
    × IsChain e.to_state h t

IsChain-append :
    (s t : ConfigState) (h : List ConfigTransition) (e : ConfigTransition)
    → IsChain s h t
    → e.from_state ≡ t
    → is_valid_transition e.from_state e.to_state ≡ true
    → IsChain s (h ++ e ∷ []) e.to_state
IsChain-append s t [] e c from valid = ground arith
IsChain-append s t (x ∷ h) e c from valid =
    (c.0, c.1, IsChain-append x.to_state t h e c.2 from valid)

module _ {V : Type 0} where
  -- A machine whose history starts at `s`.
  abbrev pub IsFrom : ConfigState → ConfigStateMachine V → Type 0
  IsFrom s m = IsChain s m.transitions m.current_state

  call-IsFrom :
      (s : ConfigState) (c : Call V) (m : ConfigStateMachine V) → IsFrom s m → IsFrom s (call c m)
  unfolding call transition set_state_metadata
  call-IsFrom s (note key value) m h = h
  call-IsFrom s (move to_state by reason stamp entered) m h =
      elim (Bool-cases (is_valid_transition m.current_state to_state)) [
        | inl valid ↦
            rw (valid, call, transition)
              (IsChain-append s m.current_state m.transitions _ h refl valid)
        | inr refused ↦ rw (refused, call, transition) h
      ]

  run-IsFrom_started :
      (s : ConfigState) (cs : List (Call V)) (m : ConfigStateMachine V)
      → IsFrom s m
      → IsFrom s (run cs m)
  unfolding run
  run-IsFrom_started s [] m h = h
  run-IsFrom_started s (c ∷ cs) m h = run-IsFrom_started s cs (call c m) (call-IsFrom s c m h)

  -- After any sequence of calls on a new machine, the recorded transitions form an unbroken chain
  -- of allowed transitions from the initial state to the current state.
  pub run-IsFrom :
      (config_id : String) (initial_state : ConfigState) (now : ℕ) (cs : List (Call V))
      → IsFrom initial_state (run cs (new_machine config_id initial_state now))
  run-IsFrom config_id initial_state now cs =
      run-IsFrom_started initial_state cs (new_machine config_id initial_state now)
        (unfold new_machine in refl)
