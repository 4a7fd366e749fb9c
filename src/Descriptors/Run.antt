-- ===== src/Descriptors/Run.antt =====
-- The worker on the system, from its first status to its last.
use okay_hermes_realtime.Base.{
  ℕ, ◌+◌, ◌≤◌, ◌≡◌, refl, sym, ◌∙◌, false, Option, none, some, List, [], ◌∷◌, arith, ◌==◌,
  Bool-cases, inl, inr, subst,
}
use okay_hermes_realtime.Base.Bytes.{Bytes, bytes}
use okay_hermes_realtime.Float.{Float, Double}
use okay_hermes_realtime.Options.{ListenerOptions}
use okay_hermes_realtime.Posix.{Replies, Os, close, call, is_accept}
use okay_hermes_realtime.Posix.Write.{Written, write_all}
use okay_hermes_realtime.Posix.Balance.{
  Same, Balanced, IsFresh, Balanced-trans, Same-Balanced, Balanced-IsFresh, unchanged,
}
use okay_hermes_realtime.Activation.{
  Process, received, pipe2, feed_child, start_child, run_handler, write_activation,
}
use okay_hermes_realtime.Activation.Handler.{run_handler-Delivers}
use okay_hermes_realtime.Worker.{
  Effect, status, archive, activation, archive_message, Tick, listener_worker, initial,
}
use okay_hermes_realtime.Worker.Live.{
  World, Host, write_status, archive_window, send_activation, call_handler, listener_worker_live,
  perform, perform_all,
}
use okay_hermes_realtime.Worker.Refinement.{answered_all, listener_worker_live-perform_all}
use okay_hermes_realtime.Descriptors.Files.{write_capture_status-Balanced}
use okay_hermes_realtime.Descriptors.Archive.{archive_activation-Balanced}

received-Same : (os : Os) (result : Option Written) → Same os (received os result).2
received-Same os none = record { is_open = refl; next_fd = refl }
received-Same os (some w) = record { is_open = refl; next_fd = refl }

module _ (replies : Replies) where
  close-next_fd : (fd : ℕ) (os : Os) → (close replies fd os).1.next_fd ≡ os.next_fd
  unfolding close call
  close-next_fd fd os = ground arith

  feed_child-next_fd :
      (payload : Bytes) (exit_code : Option ℕ) (fd : ℕ) (p : Process)
      → (feed_child replies payload exit_code fd p).1.os.next_fd ≡ p.os.next_fd
  unfolding feed_child call
  feed_child-next_fd payload exit_code fd p =
      let os1 = (close replies fd p.os).1 in
      let os2 = (received os1 (write_all replies payload os1.calls)).2 in
      close-next_fd (fd + 1) os2
      ∙ (received-Same os1 (write_all replies payload os1.calls)).next_fd
      ∙ close-next_fd fd p.os

  start_child-next_fd :
      (payload : Bytes) (exit_code fd : Option ℕ) (p : Process)
      → (start_child replies payload exit_code fd p).1.os.next_fd ≡ p.os.next_fd
  unfolding start_child call
  start_child-next_fd payload exit_code none p = refl
  start_child-next_fd payload exit_code (some fd) p =
      let os = record p.os { calls = p.os.calls + 1 } in
      elim (Bool-cases (is_accept (replies.answer p.os.calls))) [
        | inl forked ↦ rw forked (
            feed_child-next_fd payload exit_code fd (record { os = os; children = p.children + 1 }))
        | inr failed ↦
            rw failed (close-next_fd (fd + 1) (close replies fd os).1 ∙ close-next_fd fd os)
      ]

  pipe2_grows : (os : Os) → os.next_fd ≤ (pipe2 replies os).1.next_fd
  unfolding pipe2 call
  pipe2_grows os = ground arith

  run_handler-Balanced :
      (argc : ℕ) (argv : Option (List Bytes)) (payload : Option Bytes) (exit_code : Option ℕ)
      (p : Process)
      → IsFresh p.os
      → Balanced p.os (run_handler replies argc argv payload exit_code p).1.os
  unfolding run_handler
  run_handler-Balanced argc none payload exit_code p fresh = unchanged p.os
  run_handler-Balanced argc (some argv) none exit_code p fresh = unchanged p.os
  run_handler-Balanced argc (some argv) (some payload) exit_code p fresh = record {
    same_open =
        (run_handler-Delivers replies argc (some argv) payload exit_code p
          (fresh p.os.next_fd (omega arith))
          (fresh (p.os.next_fd + 1) (omega arith))).tidy.same_open;
    grows = elim (Bool-cases (argc == 0)) [
      | inl without ↦ rw without (omega arith)
      | inr handled ↦ rw handled (
          omega (
            arith,
            pipe2_grows p.os,
            start_child-next_fd payload exit_code (pipe2 replies p.os).0
                (record p { os = (pipe2 replies p.os).1 }),
          ))
    ];
  }

  write_activation-Balanced :
      (payload : Option Bytes) (os : Os) → Balanced os (write_activation replies payload os).1
  unfolding write_activation
  write_activation-Balanced none os = unchanged os
  write_activation-Balanced (some payload) os =
      Same-Balanced os _ (received-Same os (write_all replies payload os.calls))

module _ (F : Float) (D : Double) (w : World F D) (path : Bytes) (o : ListenerOptions F) where
  perform-Balanced :
      (e : Effect F) (h : Host)
      → IsFresh h.process.os
      → Balanced h.process.os (perform F D w path o e h).process.os
  unfolding perform write_status archive_window send_activation call_handler
  perform-Balanced (status text) h fresh =
      write_capture_status-Balanced w.replies w.pid path (some text) h.process.os fresh
  perform-Balanced (archive window probability) h fresh =
      archive_activation-Balanced w.replies w.printf o.activation_archive_dir w.pid
        (w.archive_clock h.process.os.calls) window probability false h.sequence h.process.os fresh
  perform-Balanced (activation probability) h fresh =
      write_activation-Balanced w.replies _ h.process.os
  perform-Balanced (Effect.run_handler probability) h fresh =
      run_handler-Balanced w.replies o.handler_argc o.handler_argv _
        (w.exit_code h.process.os.calls) h.process fresh
  perform-Balanced archive_message h fresh = unchanged h.process.os

  perform_all-Balanced :
      (effects : List (Effect F)) (h : Host)
      → IsFresh h.process.os
      → Balanced h.process.os (perform_all F D w path o effects h).process.os
  unfolding perform_all
  perform_all-Balanced [] h fresh = unchanged h.process.os
  perform_all-Balanced (e ∷ effects) h fresh =
      let first = perform-Balanced e h fresh in
      let h' = perform F D w path o e h in
      Balanced-trans h.process.os h'.process.os _ first
        (perform_all-Balanced effects h' (Balanced-IsFresh h.process.os h'.process.os first fresh))

  -- The worker leaks no descriptor: however long it runs, whatever calls fail and however often it
  -- archives windows, starts handlers and writes its status, when it is done exactly those
  -- descriptors are open that were open before, and none is closed that was open, if at the start no
  -- descriptor was open that had not been given out.
  pub listener_worker_live-Balanced :
      (started : D.Value) (ticks : List (Tick F D)) (h : Host)
      → IsFresh h.process.os
      → Balanced h.process.os (listener_worker_live F D w path o started ticks h).process.os
  listener_worker_live-Balanced started ticks h fresh =
      let h' = write_status F D w path o (bytes "starting") h in
      let ticks' = answered_all F D w path o ticks (initial F D started) h' in
      subst (λ (k : Host). Balanced h.process.os k.process.os)
        (sym (listener_worker_live-perform_all F D w path o started ticks h))
        (perform_all-Balanced (listener_worker F D o started ticks') h fresh)
