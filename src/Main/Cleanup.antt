-- ===== src/Main/Cleanup.antt =====
-- `main` releases what it has acquired, in the reverse order, and what its exit status says.
use okay_hermes_realtime.Base.{
  ℕ, ◌+◌, ◌≡◌, refl, Bool, true, false, not, ◌&&◌, Option, none, some, List, [], ◌∷◌, arith,
  if◌then◌else◌,
}
use okay_hermes_realtime.Float.{Float}
use okay_hermes_realtime.Options.{Parsed, help_shown, invalid, parsed}
use okay_hermes_realtime.Main.{
  Resource, pipewire, loop, ring, stream, worker, Action, acquire, release, run_loop, clear_status,
  destroy_model, destroy_options, Steps, install_signal_handlers, connect_and_run, open_stream,
  start_loop, listen, main,
}

abbrev same : Resource → Resource → Bool
same pipewire pipewire = true
same loop loop = true
same ring ring = true
same stream stream = true
same worker worker = true
same _ _ = false

-- What is held, the latest first. Only the latest may be released; the loop may run only while all
-- is held; and the model and the options may be released only with no worker left to use them.
unfoldable pub held_after : List Resource → List Action → Option (List Resource)
held_after held [] = some held
held_after held (acquire r ∷ actions) = held_after (r ∷ held) actions
held_after [] (release r ∷ actions) = none
held_after (top ∷ held) (release r ∷ actions) =
    let rest = held_after held actions in if same top r then rest else none
held_after (worker ∷ stream ∷ ring ∷ loop ∷ pipewire ∷ []) (run_loop ∷ actions) =
    held_after (worker ∷ stream ∷ ring ∷ loop ∷ pipewire ∷ []) actions
held_after _ (run_loop ∷ actions) = none
held_after held (clear_status ∷ actions) = held_after held actions
held_after (worker ∷ held) (destroy_model ∷ actions) = none
held_after held (destroy_model ∷ actions) = held_after held actions
held_after (worker ∷ held) (destroy_options ∷ actions) = none
held_after held (destroy_options ∷ actions) = held_after held actions

-- How often the options are released.
unfoldable pub count_options : List Action → ℕ
count_options [] = 0
count_options (destroy_options ∷ actions) = 1 + count_options actions
count_options (_ ∷ actions) = count_options actions

-- Whichever step fails, `main` releases everything that it acquired, always the latest first, runs
-- the loop only with all of it there, joins the worker before it releases what the worker uses,
-- and releases the options exactly once.
pub main-held_after :
    {F : Float} (options : Parsed F) (self_test_ok : Bool) (s : Steps)
    → let actions = (main options self_test_ok s).1 in
      (held_after [] actions ≡ some []) × (count_options actions ≡ 1)
unfolding main listen start_loop open_stream connect_and_run install_signal_handlers held_after
    count_options
main-held_after help_shown self_test_ok s = (refl, refl)
main-held_after invalid self_test_ok s = (refl, refl)
main-held_after (parsed o) self_test_ok s = (ground arith, ground arith)

-- All steps of the start succeed.
abbrev pub starts : Steps → Bool
starts s =
    s.path_copied && s.sigint && s.sigterm && s.loop && s.ring && s.properties && s.stream
    && s.connected && s.worker

-- The exit status: 0 for the help, 2 for wrong arguments, and otherwise 0 exactly if the self-test
-- passes, or if every step of the start succeeds and nothing has failed by the end.
pub main_status :
    {F : Float} (options : Parsed F) (self_test_ok : Bool) (s : Steps)
    → (main options self_test_ok s).0 ≡ elim options [
      | help_shown ↦ 0
      | invalid ↦ 2
      | parsed o ↦ if (if o.self_test then self_test_ok else starts s && not s.failed) then 0 else 1
    ]
unfolding main listen start_loop open_stream connect_and_run install_signal_handlers
main_status help_shown self_test_ok s = refl
main_status invalid self_test_ok s = refl
main_status (parsed o) self_test_ok s = ground arith
