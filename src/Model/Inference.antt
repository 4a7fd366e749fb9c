-- ===== src/Model/Inference.antt =====
-- What one run of the model leaves behind.
use okay_hermes_realtime.Base.{
  ℕ, ◌+◌, ◌≡◌, Bool, not, ◌&&◌, Option, none, some, arith, if◌then◌else◌,
}
use okay_hermes_realtime.Model.{
  Ort, ort_status_check, run_model, run_session, read_output, new_status,
}

module _ (replies : ℕ → Bool) {V : Type 0} (zero_score : V) where
  -- The model is there to be run: all that `run_model` tests before its first call.
  abbrev pub is_ready : Bool → Ort → Bool
  is_ready input s =
      let m = s.objects.model in
      m.input_name && m.output_name && m.session && m.memory_info && input && m.ort

  -- Both tensors are released on every path, and so is the error status of `Run` and of
  -- `GetTensorMutableData`. The one thing that is left is the error status of
  -- `CreateTensorWithDataAsOrtValue`, when that call is made and fails.
  pub run_model-objects :
      (input : Bool) (output : Option V) (s : Ort)
      → (run_model replies zero_score input output s).1.objects
        ≡ (if is_ready input s && not (replies s.calls) then new_status s.objects else s.objects)
  unfolding run_model run_session read_output ort_status_check
  run_model-objects input output s = ground arith

  -- A run scores exactly if the model is ready and its three calls succeed; the score is then the
  -- first number of the output, or 0 if there is no output data.
  pub run_model-score :
      (input : Bool) (output : Option V) (s : Ort)
      → (run_model replies zero_score input output s).0 ≡ (
          if is_ready input s && replies s.calls && replies (s.calls + 1) && replies (s.calls + 2)
          then some (elim output [ none ↦ zero_score | some score ↦ score ])
          else none)
  unfolding run_model run_session read_output ort_status_check
  run_model-score input output s = ground arith
