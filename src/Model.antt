-- ===== src/Model.antt =====
-- `struct wake_model` of native/okay-hermes-realtime-wake-listener.c and the functions that load,
-- run and release the wakeword model. ONNX Runtime is outside the repository: `replies` tells which
-- of its calls, in order, return no error status, and the objects that it has handed out are
-- counted. The function pointers of its API table are never NULL.
pub mod Resources
pub mod Inference
use okay_hermes_realtime.Base.{
  ℕ, ◌+◌, ◌-◌, Bool, true, false, not, ◌&&◌, ◌||◌, Option, none, some, List, [], ◌∷◌, if◌then◌else◌,
}

-- Which pointers of `struct wake_model` are not NULL.
pub record WakeModel : Type 0 where
  pub ort : Bool
  pub env : Bool
  pub session_options : Bool
  pub session : Bool
  pub memory_info : Bool
  pub allocator : Bool
  pub input_name : Bool
  pub output_name : Bool

-- The objects of ONNX Runtime that have not been released, and how many releases were of an object
-- that was not there.
pub record Live : Type 0 where
  pub envs : ℕ
  pub session_options : ℕ
  pub sessions : ℕ
  pub memory_infos : ℕ
  pub names : ℕ
  pub values : ℕ
  pub statuses : ℕ
  pub stray_releases : ℕ

-- The model with the objects, and the number of the next call.
pub record Objects : Type 0 where
  pub model : WakeModel
  pub live : Live

pub record Ort : Type 0 where
  pub objects : Objects
  pub calls : ℕ

-- `memset(model, 0, sizeof(*model))`
abbrev pub zeroed : WakeModel
zeroed = record {
  ort = false;
  env = false;
  session_options = false;
  session = false;
  memory_info = false;
  allocator = false;
  input_name = false;
  output_name = false;
}

abbrev pub nothing_live : Live
nothing_live = record {
  envs = 0;
  session_options = 0;
  sessions = 0;
  memory_infos = 0;
  names = 0;
  values = 0;
  statuses = 0;
  stray_releases = 0;
}

-- What the successful calls of `wake_model_init` create.
abbrev create_env : Objects → Objects
create_env s = record s {
  model = record (s.model) { env = true };
  live = record (s.live) { envs = s.live.envs + 1 };
}

abbrev create_session_options : Objects → Objects
create_session_options s = record s {
  model = record (s.model) { session_options = true };
  live = record (s.live) { session_options = s.live.session_options + 1 };
}

abbrev set_option : Objects → Objects
set_option s = s

abbrev create_session : Objects → Objects
create_session s = record s {
  model = record (s.model) { session = true };
  live = record (s.live) { sessions = s.live.sessions + 1 };
}

-- The default allocator is not released.
abbrev get_allocator : Objects → Objects
get_allocator s = record s { model = record (s.model) { allocator = true } }

abbrev get_input_name : Objects → Objects
get_input_name s = record s {
  model = record (s.model) { input_name = true };
  live = record (s.live) { names = s.live.names + 1 };
}

abbrev get_output_name : Objects → Objects
get_output_name s = record s {
  model = record (s.model) { output_name = true };
  live = record (s.live) { names = s.live.names + 1 };
}

abbrev create_memory_info : Objects → Objects
create_memory_info s = record s {
  model = record (s.model) { memory_info = true };
  live = record (s.live) { memory_infos = s.live.memory_infos + 1 };
}

-- The calls of `wake_model_init` in order: five settings stand between the options and the session.
unfoldable pub init_calls : List (Objects → Objects)
init_calls =
    create_env ∷ create_session_options ∷ set_option ∷ set_option ∷ set_option ∷ set_option
    ∷ set_option ∷ create_session ∷ get_allocator ∷ get_input_name ∷ get_output_name
    ∷ create_memory_info ∷ []

-- An error status that a call returns, and `ort_status_check`, which releases it.
abbrev pub new_status : Objects → Objects
new_status s = record s { live = record (s.live) { statuses = s.live.statuses + 1 } }

abbrev pub release_status : Objects → Objects
release_status s = record s {
  live = record (s.live) {
    statuses = s.live.statuses - 1;
    stray_releases = s.live.stray_releases + (1 - s.live.statuses);
  };
}

abbrev take_name : Objects → Objects
take_name s = record s {
  live = record (s.live) {
    names = s.live.names - 1;
    stray_releases = s.live.stray_releases + (1 - s.live.names);
  };
}

-- The releases that a pointer makes.
abbrev pub count : Bool → ℕ
count true = 1
count false = 0

-- What stands before the names in `wake_model_destroy`, and behind them.
unfoldable pub drop_before_names : Objects → Objects
drop_before_names s = record s {
  live = record (s.live) {
    sessions = s.live.sessions - count s.model.session;
    memory_infos = s.live.memory_infos - count s.model.memory_info;
    session_options = s.live.session_options - count s.model.session_options;
    stray_releases =
        s.live.stray_releases
        + (count s.model.session - s.live.sessions)
        + (count s.model.memory_info - s.live.memory_infos)
        + (count s.model.session_options - s.live.session_options);
  };
}

unfoldable pub drop_env : Objects → Objects
drop_env s = record {
  model = zeroed;
  live = record (s.live) {
    envs = s.live.envs - count s.model.env;
    stray_releases = s.live.stray_releases + (count s.model.env - s.live.envs);
  };
}

module _ (replies : ℕ → Bool) where
  -- `ort_status_check(model, CALL, context) >= 0`
  unfoldable pub ort_status_check : (Objects → Objects) → Ort → Bool × Ort
  ort_status_check create s =
      if replies s.calls
      then (true, record { objects = create s.objects; calls = s.calls + 1 })
      else (false, record { objects = release_status (new_status s.objects); calls = s.calls + 1 })

  -- The calls one after another, up to the first error.
  unfoldable pub check_all : List (Objects → Objects) → Ort → Bool × Ort
  check_all [] s = (true, s)
  check_all (create ∷ rest) s =
      let (done, s') = ort_status_check create s in
      let more = check_all rest s' in if done then more else (false, s')

  -- `wake_model_init(model, model_path)`; `api_base` and `api` tell whether the library and the
  -- requested version of its table are there.
  unfoldable pub wake_model_init : Bool → Bool → Ort → Bool × Ort
  wake_model_init false api s = (false, s)
  wake_model_init true false s =
      (false, record s { objects = record (s.objects) { model = zeroed } })
  wake_model_init true true s =
      check_all init_calls
        (record s { objects = record (s.objects) { model = record zeroed { ort = true } } })

-- `lets_go` tells whether a failing `AllocatorFree` has released its object all the same, which is
-- not documented.
module _ (replies lets_go : ℕ → Bool) where
  -- Releasing a name may fail with a status, which is released.
  unfoldable pub free_name : Bool → Ort → Ort
  free_name false s = s
  free_name true s =
      if replies s.calls
      then record { objects = take_name s.objects; calls = s.calls + 1 }
      else record {
        objects =
            release_status
              (new_status (if lets_go s.calls then take_name s.objects else s.objects));
        calls = s.calls + 1;
      }

  -- `wake_model_destroy(model)`
  unfoldable pub wake_model_destroy : Ort → Ort
  wake_model_destroy s =
      if s.objects.model.ort
      then (let s1 = record s { objects = drop_before_names s.objects } in
          let s2 =
            free_name s.objects.model.input_name (free_name s.objects.model.output_name s1) in
          record s2 { objects = drop_env s2.objects })
      else s

abbrev pub new_value : Objects → Objects
new_value s = record s { live = record (s.live) { values = s.live.values + 1 } }

abbrev pub release_value : Objects → Objects
release_value s = record s {
  live = record (s.live) {
    values = s.live.values - 1;
    stray_releases = s.live.stray_releases + (1 - s.live.values);
  };
}

-- `run_model(model, input, score)`: its result and what it leaves. `output` is the first number of
-- the output tensor, `none` where its data pointer is NULL, and `zero_score` is 0.0f.
module _ (replies : ℕ → Bool) {V : Type 0} (zero_score : V) where
  -- From `GetTensorMutableData` on; both tensors are handed out, the input is released already.
  unfoldable pub read_output : Option V → Ort → Option V × Ort
  read_output output s =
      let (done, s') = ort_status_check replies (λ o. o) s in
      let released = record s' { objects = release_value s'.objects } in
      if done
      then (some (elim output [ none ↦ zero_score | some score ↦ score ]), released)
      else (none, released)

  -- From `Run` on.
  unfoldable pub run_session : Option V → Ort → Option V × Ort
  run_session output s =
      let (done, s') = ort_status_check replies new_value s in
      let released = record s' { objects = release_value s'.objects } in
      if done then read_output output released else (none, released)

  -- The error status of `CreateTensorWithDataAsOrtValue` is compared with NULL and not released.
  unfoldable pub run_model : Bool → Option V → Ort → Option V × Ort
  run_model input output s =
      let m = s.objects.model in
      if not (m.input_name && m.output_name && m.session && m.memory_info && input && m.ort)
      then (none, s)
      else if replies s.calls
      then run_session output (record { objects = new_value s.objects; calls = s.calls + 1 })
      else (none, record { objects = new_status s.objects; calls = s.calls + 1 })
