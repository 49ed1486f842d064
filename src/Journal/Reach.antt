-- ===== src/Journal/Reach.antt =====
-- `canReachOperationState` of runtime/src/storage/operation-journal.ts: the breadth-first search of
-- the state machine. At most nine states are expanded, with at most nine candidates each, so that
-- the queue is empty after 82 turns; the search has fuel for 100.
use Prim.Native.Nat.{ℕ, zero, suc}
use ai_macos.Base.{
  ◌≡◌, refl, sym, ap, subst, ◌∙◌, Bool, true, false, ◌&&◌, ◌||◌, negate, Option, none, some, List,
  [], ◌∷◌, ◌++◌, ◌==◌, arith, All, All-append, inl, inr, Bool-cases, eq_of_==, includes, select,
  every, if◌then◌else◌, ◌↔◌,
}
use ai_macos.Operation.Transitions.{
  OperationState, OperationState_discrete, operation_state_eq, operation_states,
  operation_transitions, can_transition,
}

-- The candidates that one turn of the loop appends to `pending`.
unfoldable pub candidates : OperationState → List OperationState → List OperationState
unfolding can_transition OperationState_discrete
candidates current visited =
    select (λ c. negate (includes visited c) && can_transition current c) operation_states

-- `none` stands for a search that is out of fuel.
unfoldable pub search : ℕ → OperationState → List OperationState → List OperationState → Option Bool
unfolding candidates OperationState_discrete
search fuel to [] visited = some false
search zero to (current ∷ pending) visited = none
search (suc fuel) to (current ∷ pending) visited =
    let skip = search fuel to pending visited in
    let expand =
      search fuel to (pending ++ candidates current (current ∷ visited)) (current ∷ visited) in
    if current == to then some true else if includes visited current then skip else expand

unfoldable pub can_reach : OperationState → OperationState → Option Bool
unfolding search
can_reach from to = search 100 to (from ∷ []) []

-- A path of transitions.
pub data Reaches (from : OperationState) : OperationState → Type 0 where
  here : Reaches from from
  onward :
      {mid to : OperationState} → Reaches from mid → can_transition mid to ≡ true → Reaches from to

split_and : (a b : Bool) → a && b ≡ true → (a ≡ true) × (b ≡ true)
split_and true b h = (refl, h)
split_and false b h = cc

module _ (from : OperationState) where
  All-candidates :
      {current : OperationState} (visited cs : List OperationState)
      → Reaches from current
      → All
          (Reaches from)
          (select (λ c. negate (includes visited c) && can_transition current c) cs)
  All-candidates visited [] path = tt
  All-candidates {current} visited (c ∷ cs) path =
      let later = All-candidates {current = current} visited cs path in
      elim (Bool-cases (negate (includes visited c) && can_transition current c)) [
        | inl e ↦ rw e (
          onward path (split_and (negate (includes visited c)) (can_transition current c) e).1,
          later,
        )
        | inr e ↦ rw e later
      ]

  -- What the search finds is reached.
  search-Reaches :
      (fuel : ℕ) (to : OperationState) (pending visited : List OperationState)
      → All (Reaches from) pending
      → search fuel to pending visited ≡ some true
      → Reaches from to
  unfolding search candidates
  search-Reaches fuel to [] visited paths h = cc
  search-Reaches zero to (current ∷ pending) visited paths h = cc
  search-Reaches (suc fuel) to (current ∷ pending) visited paths h =
      elim (Bool-cases (current == to)) [
        | inl same ↦ subst (Reaches from) (eq_of_== current to same) paths.0
        | inr other ↦ elim (Bool-cases (includes visited current)) [
          | inl old ↦ search-Reaches fuel to pending visited paths.1 (ground arith)
          | inr new ↦
              search-Reaches fuel to (pending ++ candidates current (current ∷ visited))
                (current ∷ visited)
                (All-append (Reaches from) pending _ paths.1
                  (All-candidates (current ∷ visited) operation_states paths.0))
                (ground arith)
        ]
      ]

abbrev is_found : Option Bool → Bool
is_found (some b) = b
is_found none = false

abbrev is_finished : Option Bool → Bool
is_finished (some b) = true
is_finished none = false

-- The answers of the search are closed under transitions, over all states.
is_closed : OperationState → OperationState → OperationState → Bool
unfolding can_reach can_transition
is_closed a b c =
    is_finished (can_reach a b)
    && is_found (can_reach a a)
    && (negate (is_found (can_reach a b) && can_transition b c) || is_found (can_reach a c))

all_closed :
    every
      (λ a. every (λ b. every (is_closed a b) operation_states) operation_states)
      operation_states
    ≡ true
unfolding is_closed can_reach search OperationState_discrete candidates can_transition
    operation_transitions
all_closed = refl

every_state :
    (p : OperationState → Bool) (s : OperationState) → every p operation_states ≡ true → p s ≡ true
every_state p s h = elim s [ OperationState.registered ↦ ground arith | _ ↦ ground arith ]

closed_at : (a b c : OperationState) → is_closed a b c ≡ true
closed_at a b c = every_state (is_closed a b) c (
    every_state (λ x. every (is_closed a x) operation_states) b
      (every_state (λ x. every (λ y. every (is_closed x y) operation_states) operation_states) a
        all_closed))

closed_parts :
    (x y u v w : Bool)
    → x && y && (negate (u && v) || w) ≡ true
    → (x ≡ true) × (y ≡ true) × (u ≡ true → v ≡ true → w ≡ true)
closed_parts x y u v w h = ground arith

closed :
    (a b c : OperationState)
    → (is_finished (can_reach a b) ≡ true)
      × (is_found (can_reach a a) ≡ true)
      × (is_found (can_reach a b) ≡ true
          → can_transition b c ≡ true
          → is_found (can_reach a c) ≡ true)
closed a b c = closed_parts _ _ _ _ _ (unfold is_closed in closed_at a b c)

found_of_Reaches :
    (from to : OperationState) → Reaches from to → is_found (can_reach from to) ≡ true
found_of_Reaches from to here = (closed from from from).1
found_of_Reaches from to (onward {mid} path step) =
    (closed from mid to).2 (found_of_Reaches from mid path) step

-- The search ends within its fuel, and says yes exactly when a path of transitions leads from one
-- state to the other.
pub can_reach-Reaches :
    (from to : OperationState)
    → (b : Bool) × (can_reach from to ≡ some b) × ((b ≡ true) ↔ Reaches from to)
can_reach-Reaches from to = go (can_reach from to) refl
  where
    go :
        (o : Option Bool)
        → can_reach from to ≡ o
        → (b : Bool) × (o ≡ some b) × ((b ≡ true) ↔ Reaches from to)
    go none e = cc (closed from to to).0
    go (some b) e = (
      b,
      refl,
      (
        (λ yes_found.
            search-Reaches from 100 to (from ∷ []) [] (here, tt)
              (unfold can_reach in (e ∙ ap some yes_found))),
        λ path. sym (ap is_found e) ∙ found_of_Reaches from to path,
      ),
    )
