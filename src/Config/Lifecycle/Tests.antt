-- ===== src/Config/Lifecycle/Tests.antt =====
-- pdsno/config/config_state.py: the state machine at concrete inputs.
use partially_distributed_sm.Common.{
  List, [], length, none, refl, some, string_eq, ℕ, ◌+◌, ◌∷◌, ◌≡◌, ◌≤◌,
}
use partially_distributed_sm.Config.Lifecycle.{
  Call, ConfigStateMachine, approved, call, cancelled, config_state_eq, draft, executing, failed,
  is_valid_transition, move, new_machine, note, pending_approval, run, set_state_metadata,
  transition,
}
use partially_distributed_sm.Config.Lifecycle.Reach.{at, entries, executions-le-approvals}

abbrev calls : List (Call ℕ)
calls =
    move pending_approval "lc" none 1 1
    ∷ note "ticket" 7
    ∷ move executing "lc" none 2 2
    ∷ move approved "rc" (some "ok") 3 3
    ∷ move executing "lc" none 4 4
    ∷ move failed "lc" none 5 5
    ∷ move draft "lc" none 6 6
    ∷ []

abbrev fresh : ConfigStateMachine ℕ
fresh = new_machine "cfg-1" draft 0

-- The premature execution is refused; the others are recorded.
run-calls : ((run calls fresh).current_state ≡ draft) × (length (run calls fresh).transitions ≡ 5)
unfolding run call transition is_valid_transition new_machine set_state_metadata
run-calls = (refl, refl)

executions-le-approvals_example :
    let m = run calls (new_machine "cfg-1" draft 0) in
    entries executing m.transitions + at approved m.current_state ≤ entries approved m.transitions
executions-le-approvals_example = executions-le-approvals "cfg-1" 0 calls

abbrev withdrawn : ConfigStateMachine ℕ
withdrawn = new_machine "cfg-2" cancelled 0
