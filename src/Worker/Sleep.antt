-- ===== src/Worker/Sleep.antt =====
-- `sleep_worker_until_next_deadline`: the time that the worker sleeps.
use okay_hermes_realtime.Base.{◌≡◌, Bool, false, not, arith, if◌then◌else◌}
use okay_hermes_realtime.Float.{Double}

module _ (D : Double) where
  open D use {Value, of_unsigned, add, sub, div, lt}

  -- WORKER_MIN_SLEEP_SECONDS and WORKER_MAX_SLEEP_SECONDS
  abbrev pub min_sleep : Value
  min_sleep = div (of_unsigned 1) (of_unsigned 1000)

  abbrev pub max_sleep : Value
  max_sleep = div (of_unsigned 1) (of_unsigned 2)

  abbrev earlier : Value → Value → Value
  earlier next deadline = if lt deadline next then deadline else next

  -- The delay that is handed to `nanosleep`, as seconds and nanoseconds.
  unfoldable pub sleep_delay : Value → Value → Value → Bool → Value
  sleep_delay now inference_interval last_capture_sample_at wrote_unhealthy =
      let next = earlier (add now max_sleep) (add now inference_interval) in
      let next' =
        if not wrote_unhealthy
        then earlier next (add last_capture_sample_at (of_unsigned 10))
        else next in
      let delay = sub next' now in
      let at_least = if lt delay min_sleep then min_sleep else delay in
      if lt max_sleep at_least then max_sleep else at_least

  -- The delay is neither below WORKER_MIN_SLEEP_SECONDS nor above WORKER_MAX_SLEEP_SECONDS, whatever
  -- the clock gives and however the sums round; of the comparison it takes that neither bound is
  -- below itself and that the upper is not below the lower.
  pub sleep_delay_bounds :
      (now interval last : Value) (wrote_unhealthy : Bool)
      → lt min_sleep min_sleep ≡ false
      → lt max_sleep max_sleep ≡ false
      → lt max_sleep min_sleep ≡ false
      → let delay = sleep_delay now interval last wrote_unhealthy in
        (lt delay min_sleep ≡ false) × (lt max_sleep delay ≡ false)
  unfolding sleep_delay
  sleep_delay_bounds now interval last wrote_unhealthy low high ordered = ground arith
