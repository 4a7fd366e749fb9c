-- ===== src/Model/Resources.antt =====
-- Loading and releasing the model releases nothing twice, and leaks at most names.
use okay_hermes_realtime.Base.{
  ℕ, ◌+◌, ◌-◌, ◌≡◌, ap, Bool, true, false, not, ◌&&◌, ◌||◌, List, [], ◌∷◌, arith, Bool-cases, inl,
  inr,
}
use okay_hermes_realtime.Model.{
  Objects, Ort, zeroed, nothing_live, init_calls, ort_status_check, check_all, wake_model_init,
  free_name, wake_model_destroy, new_status, release_status, drop_before_names, drop_env, count,
}

-- The model owns what is live: each object is live exactly if the model points to it.
pub record Owns (s : Objects) : Type 0 where
  pub envs : s.live.envs ≡ count s.model.env
  pub session_options : s.live.session_options ≡ count s.model.session_options
  pub sessions : s.live.sessions ≡ count s.model.session
  pub memory_infos : s.live.memory_infos ≡ count s.model.memory_info
  pub names : s.live.names ≡ count s.model.input_name + count s.model.output_name
  pub values : s.live.values ≡ 0
  pub statuses : s.live.statuses ≡ 0
  pub stray_releases : s.live.stray_releases ≡ 0
  pub unloaded : s.model.ort ≡ false → s.model ≡ zeroed

abbrev pub fresh : Objects
fresh = record { model = zeroed; live = nothing_live }

-- Each of the calls, made after the ones before it, keeps the model the owner.
abbrev Creates : List (Objects → Objects) → Objects → Type 0
Creates [] s = Unit
Creates (create ∷ rest) s = Owns (create s) × Creates rest (create s)

module _ (replies : ℕ → Bool) where
  -- A status that is reported is released.
  failed_status-Owns : (s : Objects) → Owns s → Owns (release_status (new_status s))
  failed_status-Owns s v = ground arith

  check_all-Owns :
      (creates : List (Objects → Objects)) (s : Ort)
      → Owns s.objects
      → Creates creates s.objects
      → Owns (check_all replies creates s).1.objects
  unfolding check_all ort_status_check
  check_all-Owns [] s v c = v
  check_all-Owns (create ∷ rest) s v c = elim (Bool-cases (replies s.calls)) [
    | inl done ↦ rw done (check_all-Owns rest _ c.0 c.1)
    | inr failed ↦ rw failed (failed_status-Owns s.objects v)
  ]

  init_calls-Creates :
      Creates init_calls (record { model = record zeroed { ort = true }; live = nothing_live })
  unfolding init_calls
  init_calls-Creates = ground arith

  -- Whichever call fails, the model owns what was created up to there.
  wake_model_init-Owns :
      (base api : Bool) (calls : ℕ)
      → Owns
          (wake_model_init replies base api (record { objects = fresh; calls = calls })).1.objects
  unfolding wake_model_init
  wake_model_init-Owns false api calls = ground arith
  wake_model_init-Owns true false calls = ground arith
  wake_model_init-Owns true true calls =
      check_all-Owns init_calls _ (ground arith) init_calls-Creates

module _ (replies lets_go : ℕ → Bool) where
  -- Call `n` of `AllocatorFree` leaves its name unreleased.
  abbrev pub is_kept : ℕ → Bool
  is_kept n = not (replies n || lets_go n)

  -- How many names `wake_model_destroy` leaves: it releases the output name first.
  abbrev pub unfreed : Ort → ℕ
  unfreed s =
      let m = s.objects.model in
      count (m.output_name && is_kept s.calls)
      + count (m.input_name && is_kept (s.calls + count m.output_name))

  free_name_lem :
      (held : Bool) (s : Ort)
      → let freed = count (held && not (is_kept s.calls)) in
        let s' = free_name replies lets_go held s in
        (s'.objects ≡ record (s.objects) {
          live = record (s.objects.live) {
            names = s.objects.live.names - freed;
            stray_releases = s.objects.live.stray_releases + (freed - s.objects.live.names);
          };
        })
        × (s'.calls ≡ s.calls + count held)
  unfolding free_name
  free_name_lem held s = ground arith

  wake_model_destroy-Owns :
      (s : Ort)
      → Owns s.objects
      → (wake_model_destroy replies lets_go s).objects
        ≡ record { model = zeroed; live = record nothing_live { names = unfreed s } }
  unfolding wake_model_destroy drop_before_names drop_env
  wake_model_destroy-Owns s v =
      let s1 = record s { objects = drop_before_names s.objects } in
      ground (
        arith,
        free_name_lem s.objects.model.output_name s1,
        free_name_lem s.objects.model.input_name
            (free_name replies lets_go s.objects.model.output_name s1),
      )

  -- Whatever calls of ONNX Runtime fail, after `wake_model_init` and `wake_model_destroy` the model
  -- is zeroed, every object but perhaps a name is released, every error status too, and none was
  -- released twice. A name is left exactly if it was held and its `AllocatorFree` failed without
  -- releasing it.
  pub wake_model_destroy-init :
      (base api : Bool) (calls : ℕ)
      → let s = (wake_model_init replies base api (record { objects = fresh; calls = calls })).1 in
        (wake_model_destroy replies lets_go s).objects
        ≡ record { model = zeroed; live = record nothing_live { names = unfreed s } }
  wake_model_destroy-init base api calls =
      wake_model_destroy-Owns _ (wake_model_init-Owns replies base api calls)

  wake_model_destroy-unloaded :
      (s : Ort) → s.objects.model.ort ≡ false → wake_model_destroy replies lets_go s ≡ s
  unfolding wake_model_destroy
  wake_model_destroy-unloaded s e = rw e

  -- On a model that owns what is live, releasing twice is releasing once.
  pub wake_model_destroy_idem :
      (s : Ort)
      → Owns s.objects
      → wake_model_destroy replies lets_go (wake_model_destroy replies lets_go s)
        ≡ wake_model_destroy replies lets_go s
  wake_model_destroy_idem s v =
      wake_model_destroy-unloaded (wake_model_destroy replies lets_go s)
        (ap (λ (o : Objects). o.model.ort) (wake_model_destroy-Owns s v))
