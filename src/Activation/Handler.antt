-- ===== src/Activation/Handler.antt =====
-- What `run_handler` leaves behind and what the handler reads.
use okay_hermes_realtime.Base.{
  ℕ, ◌+◌, ◌-◌, ◌≡◌, refl, ap, ◌∙◌, true, false, ◌||◌, Option, none, some, List, [], arith, ◌==◌,
  if◌then◌else◌, take, take-length, Bool-cases, Option-cases, inl, inr,
}
use okay_hermes_realtime.Base.Bytes.{Bytes}
use okay_hermes_realtime.Posix.{Replies, Os, call, close, is_accept}
use okay_hermes_realtime.Posix.Write.{write_all-Outcome}
use okay_hermes_realtime.Storage.Status.{Tidy}
use okay_hermes_realtime.Activation.{Process, Sent, pipe2, feed_child, start_child, run_handler}

-- What the result says: the handler got the whole payload, exited with 0 and was waited for.
pub record Delivers (payload : Bytes) (exit_code : Option ℕ) (before : Process) (sent : Sent)
    (after : Process) : Type 0 where
  pub tidy : Tidy before.os after.os
  pub text : sent.done ≡ true → sent.text ≡ payload
  pub exited : sent.done ≡ true → exit_code ≡ some 0
  pub waited : sent.done ≡ true → after.children ≡ before.children

module _ (replies : Replies) where
  feed_child-closes :
      (payload : Bytes) (exit_code : Option ℕ) (fd : ℕ) (p : Process)
      → p.os.is_open fd ≡ true
      → p.os.is_open (fd + 1) ≡ true
      → let p' = (feed_child replies payload exit_code fd p).1 in
        ((n : ℕ) → p'.os.is_open n ≡ (if n == fd || n == fd + 1 then false else p.os.is_open n))
        × (p'.os.stray_closes ≡ p.os.stray_closes)
  unfolding feed_child close call
  feed_child-closes payload exit_code fd p reading writing =
      let sent = write_all-Outcome replies payload (close replies fd p.os).1.calls in
      rw (sent.returns) ((λ n. ground arith), ground arith)

  feed_child-sent :
      (payload : Bytes) (exit_code : Option ℕ) (fd : ℕ) (p : Process)
      → let (sent, p') = feed_child replies payload exit_code fd p in
        sent.done ≡ true
        → (sent.text ≡ payload) × (exit_code ≡ some 0) × (p'.children ≡ p.children - 1)
  unfolding feed_child call
  feed_child-sent payload exit_code fd p =
      let o = write_all-Outcome replies payload (close replies fd p.os).1.calls in
      let whole = λ (c : o.written.complete ≡ true).
        o.arrived ∙ ap (λ n. take n payload) (o.all c) ∙ take-length payload in
      rw (o.returns) (λ d. (whole (ground arith), ground arith, ground arith))

  pipe2-some :
      (os : Os) (fd : ℕ)
      → (pipe2 replies os).0 ≡ some fd
      → let os' = (pipe2 replies os).1 in
        (fd ≡ os.next_fd)
        × ((n : ℕ) → os'.is_open n ≡ (if n == fd || n == fd + 1 then true else os.is_open n))
        × (os'.stray_closes ≡ os.stray_closes)
  unfolding pipe2 call
  pipe2-some os fd e = (ground arith, λ n. ground arith, ground arith)

  pipe2-none :
      (os : Os)
      → (pipe2 replies os).0 ≡ none
      → let os' = (pipe2 replies os).1 in
        (os'.is_open ≡ os.is_open) × (os'.stray_closes ≡ os.stray_closes)
  unfolding pipe2 call
  pipe2-none os e = (ground arith, ground arith)

  -- The ends of the pipe are closed again, whether there is a child or not.
  start_child-closes :
      (payload : Bytes) (exit_code : Option ℕ) (fd : ℕ) (p : Process)
      → p.os.is_open fd ≡ true
      → p.os.is_open (fd + 1) ≡ true
      → let (sent, p') = start_child replies payload exit_code (some fd) p in
        ((n : ℕ) → p'.os.is_open n ≡ (if n == fd || n == fd + 1 then false else p.os.is_open n))
        × (p'.os.stray_closes ≡ p.os.stray_closes)
  unfolding start_child call close
  start_child-closes payload exit_code fd p reading writing =
      elim (Bool-cases (is_accept (replies.answer p.os.calls))) [
        | inl forked ↦
            let started : Process = record {
              os = record (p.os) { calls = p.os.calls + 1 };
              children = p.children + 1;
            } in
            let (opens, strays) = feed_child-closes payload exit_code fd started reading writing in
            rw forked (opens, strays)
        | inr failed ↦ rw failed ((λ n. ground arith), ground arith)
      ]

  start_child-sent :
      (payload : Bytes) (exit_code : Option ℕ) (fd : ℕ) (p : Process)
      → let (sent, p') = start_child replies payload exit_code (some fd) p in
        sent.done ≡ true → (sent.text ≡ payload) × (exit_code ≡ some 0) × (p'.children ≡ p.children)
  unfolding start_child call
  start_child-sent payload exit_code fd p =
      elim (Bool-cases (is_accept (replies.answer p.os.calls))) [
        | inl forked ↦ rw forked (λ d.
            let started : Process = record {
              os = record (p.os) { calls = p.os.calls + 1 };
              children = p.children + 1;
            } in
            let (text, exited, waited) = feed_child-sent payload exit_code fd started d in
            (text, exited, waited ∙ omega arith))
        | inr failed ↦ rw failed (λ d. absurd (cc))
      ]

  no_delivery :
      (payload : Bytes) (exit_code : Option ℕ) (p p' : Process)
      → p'.os.is_open ≡ p.os.is_open
      → p'.os.stray_closes ≡ p.os.stray_closes
      → Delivers payload exit_code p (record { done = false; text = [] }) p'
  no_delivery payload exit_code p p' o c = record {
    tidy = record { same_open = λ fd. ap (λ g. g fd) o; no_stray = c };
    text = λ d. absurd (cc);
    exited = λ d. absurd (cc);
    waited = λ d. absurd (cc);
  }

  delivered :
      (payload : Bytes) (exit_code : Option ℕ) (p : Process) (fd : ℕ)
      → p.os.is_open p.os.next_fd ≡ false
      → p.os.is_open (p.os.next_fd + 1) ≡ false
      → (pipe2 replies p.os).0 ≡ some fd
      → let (sent, p') =
          start_child replies payload exit_code
            (some fd)
            (record p { os = (pipe2 replies p.os).1 }) in
        Delivers payload exit_code p sent p'
  delivered payload exit_code p fd reading writing found =
      let (number, opened, strays1) = pipe2-some p.os fd found in
      let p1 : Process = record p { os = (pipe2 replies p.os).1 } in
      let (opens, strays) =
        start_child-closes payload exit_code fd p1 (opened fd ∙ ground arith)
          (opened (fd + 1) ∙ ground arith) in
      let sent = start_child-sent payload exit_code fd p1 in
      record {
        tidy = record {
          same_open = λ n. opens n ∙ ground (arith, opened n);
          no_stray = strays ∙ strays1;
        };
        text = λ d. (sent d).0;
        exited = λ d. (sent d).1;
        waited = λ d. (sent d).2;
      }

  -- `run_handler` with a payload, whatever calls fail, also the write to a handler that does not
  -- read, and with the next two descriptors free: every descriptor that it opened is closed, once.
  -- If it succeeds, the handler got the whole payload, exited with 0 and was waited for.
  pub run_handler-Delivers :
      (handler_argc : ℕ) (argv : Option (List Bytes)) (payload : Bytes) (exit_code : Option ℕ)
      (p : Process)
      → p.os.is_open p.os.next_fd ≡ false
      → p.os.is_open (p.os.next_fd + 1) ≡ false
      → let (sent, p') = run_handler replies handler_argc argv (some payload) exit_code p in
        Delivers payload exit_code p sent p'
  unfolding run_handler start_child
  run_handler-Delivers handler_argc none payload exit_code p reading writing =
      no_delivery payload exit_code p p refl refl
  run_handler-Delivers handler_argc (some argv) payload exit_code p reading writing =
      elim (Bool-cases (handler_argc == 0)) [
        | inl without ↦ rw without (no_delivery payload exit_code p p refl refl)
        | inr with ↦ rw with (elim (Option-cases (pipe2 replies p.os).0) [
          | inl missing ↦
              let (opens, strays) = pipe2-none p.os missing in
              rw missing (
                no_delivery payload exit_code p (record p { os = (pipe2 replies p.os).1 }) opens
                  strays)
          | inr (fd, found) ↦ rw found (delivered payload exit_code p fd reading writing found)
        ])
      ]
