-- ===== src/Operation/Transitions.antt =====
-- The state machine of an operation: `OPERATION_STATES`, `operationTransitions` and the functions
-- that read them, in shared/src/contracts/operations.ts.
use ai_macos.Base.{
  ◌≡◌, refl, Bool, true, false, List, [], ◌∷◌, Eq, includes, Result, ok, err, if◌then◌else◌,
}

pub data OperationState : Type 0 where
  registered rejected dispatching observing cancelling : OperationState
  completed cancelled failed interrupted_unknown : OperationState

unfoldable pub OperationState_discrete : Discrete OperationState
OperationState_discrete = hlevel

instance abbrev pub operation_state_eq : Eq OperationState
operation_state_eq = record { decide = OperationState_discrete }

abbrev pub operation_states : List OperationState
operation_states =
    registered ∷ rejected ∷ dispatching ∷ observing ∷ cancelling ∷ completed ∷ cancelled ∷ failed
    ∷ interrupted_unknown ∷ []

abbrev pub terminal_states : List OperationState
terminal_states = rejected ∷ completed ∷ cancelled ∷ failed ∷ interrupted_unknown ∷ []

unfoldable pub operation_transitions : OperationState → List OperationState
operation_transitions registered = rejected ∷ dispatching ∷ cancelling ∷ interrupted_unknown ∷ []
operation_transitions dispatching = observing ∷ cancelling ∷ failed ∷ interrupted_unknown ∷ []
operation_transitions observing = completed ∷ failed ∷ interrupted_unknown ∷ []
operation_transitions cancelling = cancelled ∷ failed ∷ interrupted_unknown ∷ []
operation_transitions _ = []

-- `isTerminalOperationState`
unfoldable pub is_terminal : OperationState → Bool
unfolding OperationState_discrete
is_terminal state = includes terminal_states state

-- `canTransitionOperation`
unfoldable pub can_transition : OperationState → OperationState → Bool
unfolding operation_transitions OperationState_discrete
can_transition from to = includes (operation_transitions from) to

pub data TransitionError : Type 0 where
  forbidden_transition : OperationState → OperationState → TransitionError

-- `assertOperationTransition`
unfoldable pub assert_transition :
    OperationState → OperationState → Result TransitionError (Unit {0})
unfolding can_transition
assert_transition from to =
    if can_transition from to then ok tt else err (forbidden_transition from to)

tests : (can_transition registered dispatching ≡ true) × (can_transition completed failed ≡ false)
unfolding can_transition
tests = (refl, refl)

-- A terminal state is one without a transition.
pub terminal_has_no_step :
    (from to : OperationState) → is_terminal from ≡ true → can_transition from to ≡ false
unfolding is_terminal can_transition
terminal_has_no_step registered to h = cc
terminal_has_no_step dispatching to h = cc
terminal_has_no_step observing to h = cc
terminal_has_no_step cancelling to h = cc
terminal_has_no_step _ to h = refl
