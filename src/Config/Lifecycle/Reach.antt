-- ===== src/Config/Lifecycle/Reach.antt =====
-- pdsno/config/config_state.py: the states that a machine can reach, and what a run passes through.
use partially_distributed_sm.Common.{
  Bool, Bool-cases, List, Option, String, [], arith, false, if◌then◌else◌, inl, inr, length,
  length-append, lookup, lookup-insert, lookup-insert_self, none, refl, string_eq, true, ℕ, ◌&&◌,
  ◌+◌, ◌==◌, ◌∙◌, ◌∷◌, ◌≡◌, ◌≢◌, ◌≤◌,
}
use partially_distributed_sm.Config.Lifecycle.{
  Call, ConfigState, ConfigStateMachine, ConfigTransition, approved, call, can_transition_to,
  cancelled, config_state_eq, draft, executed, executing, failed, get_state_metadata,
  is_valid_transition, move, new_machine, note, pending_approval, rolled_back, run,
  set_state_metadata, transition,
}
use partially_distributed_sm.Config.Lifecycle.History.{IsChain, run-IsFrom}

-- One for the state, zero for any other.
abbrev pub at : ConfigState → ConfigState → ℕ
at s t = if s == t then 1 else 0

-- How often the history enters `s`.
abbrev pub entries : ConfigState → List ConfigTransition → ℕ
entries s [] = 0
entries s (e ∷ h) = at s e.to_state + entries s h

-- A step into `executing` comes from `approved`.
into_executing :
    (s t : ConfigState) → is_valid_transition s t ≡ true → at executing t ≤ at approved s
unfolding is_valid_transition
into_executing s t h = ground arith

chain_entries :
    (s t : ConfigState) (h : List ConfigTransition)
    → IsChain s h t
    → entries executing h + at approved t ≤ entries approved h + at approved s
chain_entries s t [] c = rw c (omega arith)
chain_entries s t (e ∷ h) c =
    let valid : is_valid_transition s e.to_state ≡ true = rw (← c.0) c.1 in
    omega (arith, chain_entries e.to_state t h c.2, into_executing s e.to_state valid)

module _ {V : Type 0} where
  -- After any calls on a new machine in the state DRAFT, the executions that began are at most
  -- as many as the approvals, and fewer while an approval stands that was not used.
  pub executions-le-approvals :
      (config_id : String) (now : ℕ) (cs : List (Call V))
      → let m = run cs (new_machine config_id draft now) in
        entries executing m.transitions + at approved m.current_state
        ≤ entries approved m.transitions
  executions-le-approvals config_id now cs =
      let m = run cs (new_machine config_id draft now) in
      omega (
        arith,
        chain_entries draft m.current_state m.transitions (run-IsFrom config_id draft now cs),
      )

  -- A refused transition leaves the machine as it was; an allowed one moves it to the state that
  -- was asked for, adds one entry to the history and leaves the metadata alone. A transition is
  -- allowed exactly when the table lists its target for the current state.
  pub transition_outcome :
      (to_state : ConfigState) (by : String) (reason : Option String) (stamp entered : ℕ)
      (m : ConfigStateMachine V)
      → let (m', done) = transition to_state by reason stamp entered m in
        (done ≡ can_transition_to to_state m)
        × (done ≡ false → m' ≡ m)
        × (done ≡ true
            → (m'.current_state ≡ to_state)
              × (m'.state_entered_at ≡ entered)
              × (length m'.transitions ≡ length m.transitions + 1)
              × (m'.state_metadata ≡ m.state_metadata))
  unfolding transition can_transition_to
  transition_outcome to_state by reason stamp entered m =
      elim (Bool-cases (is_valid_transition m.current_state to_state)) [
        | inl valid ↦
            rw (valid, transition)
              (refl, λ h. cc, λ h. (refl, refl, length-append m.transitions _, refl))
        | inr refused ↦ rw (refused, transition) (refl, λ h. refl, λ h. cc)
      ]

  call_cancelled :
      (c : Call V) (m : ConfigStateMachine V)
      → m.current_state ≡ cancelled
      → ((call c m).current_state ≡ cancelled) × ((call c m).transitions ≡ m.transitions)
  unfolding call transition set_state_metadata is_valid_transition
  call_cancelled (note key value) m h = (h, refl)
  call_cancelled (move to_state by reason stamp entered) m h = ground arith

  -- CANCELLED is final: no sequence of calls leaves it or adds to the history.
  pub cancelled_final :
      (cs : List (Call V)) (m : ConfigStateMachine V)
      → m.current_state ≡ cancelled
      → ((run cs m).current_state ≡ cancelled) × ((run cs m).transitions ≡ m.transitions)
  unfolding run
  cancelled_final [] m h = (h, refl)
  cancelled_final (c ∷ cs) m h =
      let (stays, same) = call_cancelled c m h in
      let (final, kept) = cancelled_final cs (call c m) stays in (final, kept ∙ same)

-- The states to pass through on the way to EXECUTED.
abbrev pub way_to_executed : ConfigState → List ConfigState
way_to_executed draft = approved ∷ executing ∷ executed ∷ []
way_to_executed pending_approval = approved ∷ executing ∷ executed ∷ []
way_to_executed approved = executing ∷ executed ∷ []
way_to_executed executing = executed ∷ []
way_to_executed executed = []
way_to_executed failed = draft ∷ approved ∷ executing ∷ executed ∷ []
way_to_executed rolled_back = draft ∷ approved ∷ executing ∷ executed ∷ []
way_to_executed cancelled = []

module _ {V : Type 0} where
  -- One call of `transition` for each state, and whether all of them returned true.
  abbrev pub walk :
      String → ℕ → List ConfigState → ConfigStateMachine V → ConfigStateMachine V × Bool
  walk by now [] m = (m, true)
  walk by now (s ∷ ss) m =
      let (m', done) = transition s by none now now m in
      let (m'', rest) = walk by now ss m' in (m'', done && rest)

  -- From every state but CANCELLED, transitions that are all accepted lead to EXECUTED.
  pub executed_reachable :
      (by : String) (now : ℕ) (m : ConfigStateMachine V)
      → m.current_state ≢ cancelled
      → let (m', done) = walk by now (way_to_executed m.current_state) m in
        (m'.current_state ≡ executed) × (done ≡ true)
  unfolding transition is_valid_transition
  executed_reachable by now m h = ground arith

  -- What `set_state_metadata` stores is what `get_state_metadata` then returns, for every key;
  -- the notes of every other state are as they were.
  pub get_state_metadata-set :
      (k j : String) (v default : V) (m : ConfigStateMachine V)
      → (get_state_metadata j default (set_state_metadata k v m)
          ≡ (if k == j then v else get_state_metadata j default m))
        × ((s : ConfigState)
            → s ≢ m.current_state
            → lookup s (set_state_metadata k v m).state_metadata ≡ lookup s m.state_metadata)
  unfolding get_state_metadata set_state_metadata
  get_state_metadata-set k j v default m = (
    simp (lookup-insert_self, lookup-insert) (ground arith),
    λ s other. rw lookup-insert (ground (arith, config_state_eq.beq_iff m.current_state s, other)),
  )
