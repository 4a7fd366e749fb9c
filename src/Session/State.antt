-- ===== src/Session/State.antt =====
-- src/realtime_action_spike/runtime/session_state.py: the phases of a voice session.
use okay_hermes_realtime.Base.{
  ◌≡◌, Bool, true, false, ◌&&◌, List, [], ◌∷◌, ◌++◌, if◌then◌else◌, arith, ◌⊎◌,
}

pub data SessionPhase : Type 0 where
  idle launching connecting live stopping closed failed : SessionPhase

-- `is` on two phases
unfoldable pub phase_eq : SessionPhase → SessionPhase → Bool
phase_eq idle idle = true
phase_eq launching launching = true
phase_eq connecting connecting = true
phase_eq live live = true
phase_eq stopping stopping = true
phase_eq closed closed = true
phase_eq failed failed = true
phase_eq _ _ = false

-- `next_phase in _TRANSITIONS[phase]`
unfoldable pub allowed : SessionPhase → SessionPhase → Bool
allowed idle launching = true
allowed launching connecting = true
allowed launching live = true
allowed launching stopping = true
allowed launching failed = true
allowed connecting live = true
allowed connecting stopping = true
allowed connecting failed = true
allowed live stopping = true
allowed live failed = true
allowed stopping stopping = true
allowed stopping closed = true
allowed stopping failed = true
allowed _ _ = false

pub record SessionState : Type 0 where
  pub phase : SessionPhase
  pub history : List SessionPhase

-- `SessionState(session_id=…)`
abbrev pub new_state : SessionState
new_state = record { phase = idle; history = idle ∷ [] }

-- The rest of a history behind a phase: each is allowed after the one before, and the last is the
-- current one.
unfoldable pub continues : SessionPhase → List SessionPhase → SessionPhase → Bool
continues previous [] current = phase_eq previous current
continues previous (next ∷ rest) current = allowed previous next && continues next rest current

-- `__post_init__` raises nothing.
unfoldable pub post_init : SessionState → Bool
unfolding continues
post_init s = elim s.history [
  | [] ↦ false
  | first ∷ rest ↦ phase_eq first idle && continues first rest s.phase
]

-- `transition_to`: whether it returns, and the state. It raises SessionTransitionError if not.
unfoldable pub transition_to : SessionPhase → SessionState → Bool × SessionState
transition_to next_phase s =
    if allowed s.phase next_phase
    then (if phase_eq next_phase stopping && phase_eq s.phase stopping
        then (true, s)
        else (true, record { phase = next_phase; history = s.history ++ (next_phase ∷ []) }))
    else (false, s)

continues-append :
    (previous : SessionPhase) (rest : List SessionPhase) (current next : SessionPhase)
    → continues previous rest current ≡ true
    → allowed current next ≡ true
    → continues previous (rest ++ (next ∷ [])) next ≡ true
unfolding continues allowed phase_eq
continues-append previous [] current next h a = ground arith
continues-append previous (x ∷ rest) current next h a =
    ground (arith, continues-append x rest current next)

-- A history that is accepted stays so, whether the transition is made or refused.
pub transition_to-post_init :
    (next_phase phase : SessionPhase) (history : List SessionPhase)
    → post_init (record { phase = phase; history = history }) ≡ true
    → post_init (transition_to next_phase (record { phase = phase; history = history })).1 ≡ true
unfolding transition_to post_init
transition_to-post_init next_phase phase [] h = cc
transition_to-post_init next_phase phase (first ∷ rest) h =
    ground (arith, continues-append first rest phase next_phase)

-- A session that has ended stays as it is.
pub transition_to_ended :
    (next_phase phase : SessionPhase) (history : List SessionPhase)
    → (phase ≡ closed) ⊎ (phase ≡ failed)
    → transition_to next_phase (record { phase = phase; history = history })
      ≡ (false, record { phase = phase; history = history })
unfolding transition_to allowed
transition_to_ended next_phase phase history h = ground arith
