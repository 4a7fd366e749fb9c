-- ===== src/Session/Lifecycle/Slot.antt =====
-- What `VoiceSessionController` of src/realtime_action_spike/runtime/controller.py promises: a slot
-- that is free or held by one session, and one result for each session that has held it.
use okay_hermes_realtime.Base.{ℕ, ◌+◌, ◌≡◌, sym, ap, ◌∙◌, Bool, false, Option, none, some, List}
use okay_hermes_realtime.Session.Data.{
  TerminalSessionResult, WakeSession, VoiceSessionController, assign,
}
use okay_hermes_realtime.Session.Invariant.{Inv}
use okay_hermes_realtime.Session.Moves.{Move, touches, renews, opens, ends, follows, Move-Inv}
use okay_hermes_realtime.Session.Lifecycle.Outcome.{run_events-Move, run_events-Inv}
use okay_hermes_realtime.Session.Lifecycle.{Event, new_controller, run_events}

-- The session that holds the slot, how many have held it so far, and what those that wait for a
-- session have been told.
pub record Slot : Type 0 where
  pub holder : Option ℕ
  pub taken : ℕ
  pub results : ℕ → Option TerminalSessionResult

-- The slot is taken by the next session if it is free, or its holder leaves it with a first result.
pub data Handover : Slot → Slot → Type 0 where
  takes :
      {v w : Slot}
      → v.holder ≡ none
      → w.holder ≡ some v.taken
      → w.taken ≡ v.taken + 1
      → ((m : ℕ) → w.results m ≡ v.results m)
      → Handover v w
  leaves :
      {v w : Slot} (n : ℕ) (result : TerminalSessionResult)
      → v.holder ≡ some n
      → v.results n ≡ none
      → w.holder ≡ none
      → w.taken ≡ v.taken
      → ((m : ℕ) → w.results m ≡ assign n (some result) v.results m)
      → Handover v w

-- Any number of turns.
pub data Handovers : Slot → Slot → Type 0 where
  still :
      {v w : Slot}
      → w.holder ≡ v.holder
      → w.taken ≡ v.taken
      → ((m : ℕ) → w.results m ≡ v.results m)
      → Handovers v w
  handover : {v w : Slot} → Handover v w → Handovers v w
  and_then : {v u w : Slot} → Handovers v u → Handovers u w → Handovers v w

abbrev pub slot : VoiceSessionController → Slot
slot c = record { holder = c.active_session; taken = c.allocated; results = c.future_results }

Move-Handovers : {c c' : VoiceSessionController} → Move c c' → Inv c → Handovers (slot c) (slot c')
Move-Handovers (touches t) v = still t.active t.allocated (λ m. ap (λ f. f m) t.results)
Move-Handovers (renews a s e r k later) v =
    still (r.active ∙ sym e) r.allocated (λ m. ap (λ f. f m) r.results)
Move-Handovers (opens session_id token e o) v =
    handover (takes e o.active o.allocated (λ m. ap (λ f. f m) o.results))
Move-Handovers (ends n s result e f over later) v =
    handover (leaves n result e (v.running n e).pending f.active f.allocated f.results)
Move-Handovers (follows first second) v =
    and_then (Move-Handovers first v) (Move-Handovers second (Move-Inv first v))

module _ (observer_raises : ℕ → Bool) (quiet : (k : ℕ) → observer_raises k ≡ false) where
  -- Seen from outside, whatever calls a controller gets after any others, it only hands a slot on:
  -- a session gets it when it is free, as the next one, and leaves it with a result, the first that
  -- those who wait for the session are told; nothing else changes who has the slot or what anybody
  -- was told. So there is never more than one session, and no result is changed. This holds if the
  -- observer of the status never raises.
  pub run_events-Handovers :
      (token_ttl : ℕ) (sessions : ℕ → WakeSession) (earlier later : List Event)
      → let c = run_events observer_raises earlier (new_controller token_ttl sessions) in
        Handovers (slot c) (slot (run_events observer_raises later c))
  run_events-Handovers token_ttl sessions earlier later =
      let c = run_events observer_raises earlier (new_controller token_ttl sessions) in
      let v = run_events-Inv observer_raises quiet token_ttl sessions earlier in
      Move-Handovers (run_events-Move observer_raises quiet later c v) v
