-- ===== src/Tray/State.antt =====
-- What the state in the tray means.
use okay_hermes_realtime.Base.{◌≡◌, ◌↔◌, Bool, true, false, not, ◌&&◌, ◌||◌, arith}
use okay_hermes_realtime.Tray.{
  DaemonState, CaptureHealth, ControllerHealth, is_unhealthy, is_ready, is_active, is_error,
  state_from_inputs,
}

abbrev pub is_listening : DaemonState → Bool
is_listening DaemonState.on = true
is_listening DaemonState.conversation_active = true
is_listening _ = false

-- The tray shows that the microphone is listened to, idle or in a conversation, exactly if there is
-- a microphone, the capture is healthy, the controller is ready or in a conversation, and the
-- controller and the wakeword service are both up or both down.
pub state_from_inputs-is_listening :
    (microphone controller_active wakeword_active : Bool) (capture : CaptureHealth)
    (controller : ControllerHealth)
    → (is_listening
          (state_from_inputs microphone capture controller_active wakeword_active controller)
        ≡ true)
      ↔ ((microphone ≡ true)
          × (capture ≡ CaptureHealth.healthy)
          × (is_ready controller || is_active controller ≡ true)
          × (controller_active ≡ wakeword_active))
unfolding state_from_inputs
state_from_inputs-is_listening microphone controller_active wakeword_active capture controller =
    (λ h. ground arith, λ h. ground arith)

abbrev pub is_fault : DaemonState → Bool
is_fault DaemonState.error = true
is_fault _ = false

abbrev pub is_gray : DaemonState → Bool
is_gray DaemonState.no_microphone = true
is_gray _ = false

-- The tray shows an error exactly if there is a microphone and either the controller reports an
-- error, or the wakeword service is up and its capture is unhealthy. It shows no microphone exactly
-- if there is none, or if the controller is up without the wakeword service and reports no error,
-- whatever an old health file says.
pub state_from_inputs_faults :
    (microphone controller_active wakeword_active : Bool) (capture : CaptureHealth)
    (controller : ControllerHealth)
    → let shown =
        state_from_inputs microphone capture controller_active wakeword_active controller in
      (is_fault shown
        ≡ (microphone && ((wakeword_active && is_unhealthy capture) || is_error controller)))
      × (is_gray shown ≡ (
          not microphone
          || (controller_active && not wakeword_active && not (is_error controller))))
unfolding state_from_inputs
state_from_inputs_faults microphone controller_active wakeword_active capture controller =
    (ground arith, ground arith)
