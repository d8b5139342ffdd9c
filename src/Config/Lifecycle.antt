-- ===== src/Config/Lifecycle.antt =====
-- pdsno/config/config_state.py: the state machine of one configuration. A method returns the new
-- machine and its result; each reading of the clock is an argument, in the order of the readings.
-- Log lines are left out.
pub mod History
pub mod Reach
mod Tests
use partially_distributed_sm.Common.{
  Bool, Dict, Eq, List, Option, String, [], arith, elem, enum_eq, false, if◌then◌else◌, insert,
  lookup, not, string_eq, true, ℕ, ◌++◌, ◌∷◌, ◌≡◌,
}
use mathlib.Core.Option

pub data ConfigState : Type 0 where
  draft pending_approval approved executing executed failed rolled_back cancelled : ConfigState

abbrev pub config_state_index : ConfigState → ℕ
config_state_index draft = 0
config_state_index pending_approval = 1
config_state_index approved = 2
config_state_index executing = 3
config_state_index executed = 4
config_state_index failed = 5
config_state_index rolled_back = 6
config_state_index cancelled = 7

pub config_state_index_inj :
    (a b : ConfigState) → config_state_index a ≡ config_state_index b → a ≡ b
config_state_index_inj a b h = ground arith

instance abbrev pub config_state_eq : Eq ConfigState
config_state_eq = enum_eq config_state_index config_state_index_inj

pub record ConfigTransition : Type 0 where
  pub from_state : ConfigState
  pub to_state : ConfigState
  pub timestamp : ℕ
  pub triggered_by : String
  pub reason : Option String

-- The values that `set_state_metadata` stores are any values of Python, `V`.
pub record ConfigStateMachine (V : Type 0) : Type 0 where
  pub config_id : String
  pub current_state : ConfigState
  pub transitions : List ConfigTransition
  pub state_entered_at : ℕ
  pub state_metadata : Dict ConfigState (Dict String V)

-- `VALID_TRANSITIONS`
unfoldable pub valid_transitions : ConfigState → List ConfigState
valid_transitions draft = pending_approval ∷ approved ∷ cancelled ∷ []
valid_transitions pending_approval = approved ∷ cancelled ∷ draft ∷ []
valid_transitions approved = executing ∷ cancelled ∷ []
valid_transitions executing = executed ∷ failed ∷ []
valid_transitions executed = rolled_back ∷ []
valid_transitions failed = rolled_back ∷ draft ∷ []
valid_transitions rolled_back = draft ∷ []
valid_transitions cancelled = []

unfoldable pub is_valid_transition : ConfigState → ConfigState → Bool
unfolding valid_transitions
is_valid_transition from_state to_state = elem to_state (valid_transitions from_state)

-- The calls that change a machine.
pub data Call (V : Type 0) : Type 0 where
  move : ConfigState → String → Option String → ℕ → ℕ → Call V
  note : String → V → Call V

module _ {V : Type 0} where
  -- `__init__`
  unfoldable pub new_machine : String → ConfigState → ℕ → ConfigStateMachine V
  new_machine config_id initial_state now = record {
    config_id = config_id;
    current_state = initial_state;
    transitions = [];
    state_entered_at = now;
    state_metadata = [];
  }

  -- `stamp` and `entered` are the two readings of the clock.
  unfoldable pub transition :
      ConfigState
      → String
      → Option String
      → ℕ
      → ℕ
      → ConfigStateMachine V
      → ConfigStateMachine V × Bool
  transition to_state triggered_by reason stamp entered m =
      if not (is_valid_transition m.current_state to_state) then (m, false) else (
        record m {
          transitions = m.transitions ++ event ∷ [];
          current_state = to_state;
          state_entered_at = entered;
        },
        true,
      )
    where
      event : ConfigTransition
      event = record {
        from_state = m.current_state;
        to_state = to_state;
        timestamp = stamp;
        triggered_by = triggered_by;
        reason = reason;
      }

  unfoldable pub can_transition_to : ConfigState → ConfigStateMachine V → Bool
  can_transition_to to_state m = is_valid_transition m.current_state to_state

  unfoldable pub get_valid_transitions : ConfigStateMachine V → List ConfigState
  get_valid_transitions m = valid_transitions m.current_state

  unfoldable pub set_state_metadata : String → V → ConfigStateMachine V → ConfigStateMachine V
  set_state_metadata key value m = record m {
    state_metadata = insert m.current_state (insert key value here) m.state_metadata;
  }
    where
      here : Dict String V
      here = Option.get_or (lookup m.current_state m.state_metadata) []

  unfoldable pub get_state_metadata : String → V → ConfigStateMachine V → V
  get_state_metadata key default m =
      Option.get_or (lookup key (Option.get_or (lookup m.current_state m.state_metadata) []))
        default

  unfoldable pub call : Call V → ConfigStateMachine V → ConfigStateMachine V
  call (move to_state triggered_by reason stamp entered) m =
      (transition to_state triggered_by reason stamp entered m).0
  call (note key value) m = set_state_metadata key value m

  unfoldable pub run : List (Call V) → ConfigStateMachine V → ConfigStateMachine V
  run [] m = m
  run (c ∷ cs) m = run cs (call c m)
