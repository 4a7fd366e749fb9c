-- ===== src/Tray/Reading.antt =====
-- What the tray reads of the status that the listener writes, and what it watches.
use okay_hermes_realtime.Storage.Working.{IsWorking, write_capture_status-works}
use okay_hermes_realtime.Base.{
  ◌≤◌, ◌<◌, ◌≡◌, refl, sym, ◌∙◌, ap, ◌⊎◌, inl, inr, false, some, [], ◌∷◌, ◌++◌, arith,
  if◌then◌else◌, length, take_all, length-append, ◌≢◌, append_assoc, get_or, Option,
}
use okay_hermes_realtime.Base.Bytes.{Bytes, bytes, bytes_eq, append_cancel}
use okay_hermes_realtime.Options.{capture_status_suffix}
use okay_hermes_realtime.Posix.{Replies, Os}
use okay_hermes_realtime.Storage.{newline, status_tmp, write_capture_status}
use okay_hermes_realtime.Storage.Status.{write_capture_status-atomic}
use okay_hermes_realtime.Tray.{CaptureHealth, capture_health_from_status_text}
use okay_hermes_realtime.Tray.Files.{capture_health, capture_health_path, text_of, state_root_path}

-- Visible ASCII characters only.
abbrev pub IsPlain : Bytes → Type 0
IsPlain [] = Unit
IsPlain (c ∷ cs) = (33 ≤ c) × (c < 127) × IsPlain cs

-- The health that a status stands for.
abbrev pub health_of : Bytes → CaptureHealth
health_of status =
    if bytes_eq status (bytes "healthy")
    then CaptureHealth.healthy
    else if bytes_eq status (bytes "unhealthy")
    then CaptureHealth.unhealthy
    else CaptureHealth.unknown

-- What a file with a status line tells.
text_of-health_of :
    (from_utf8 trimmed : Bytes → Bytes) (status : Bytes)
    → ((text : Bytes) → IsPlain text → from_utf8 (text ++ (newline ∷ [])) ≡ text ++ (newline ∷ []))
    → ((text : Bytes) → IsPlain text → trimmed (text ++ (newline ∷ [])) ≡ text)
    → IsPlain status
    → length status ≤ 127
    → capture_health_from_status_text trimmed (text_of from_utf8 (some (status ++ (newline ∷ []))))
      ≡ health_of status
unfolding capture_health_from_status_text
text_of-health_of from_utf8 trimmed status utf8 trims plain short =
    rw
      (
        take_all 128 (status ++ (newline ∷ []))
            (omega (arith, length-append status (newline ∷ []))),
        utf8 status plain,
        trims status plain,
      )
      refl

module _ (from_utf8 trimmed : Bytes → Bytes)
    (utf8 : (text : Bytes)
      → IsPlain text
      → from_utf8 (text ++ (newline ∷ [])) ≡ text ++ (newline ∷ []))
    (trims : (text : Bytes) → IsPlain text → trimmed (text ++ (newline ∷ [])) ≡ text)
    (replies : Replies) (pid home status : Bytes) (os : Os) (plain : IsPlain status)
    (short : length status ≤ 127) where
  abbrev read : Option Bytes → CaptureHealth
  read file = capture_health_from_status_text trimmed (text_of from_utf8 file)

  told : read (some (status ++ (newline ∷ []))) ≡ health_of status
  told = text_of-health_of from_utf8 trimmed status utf8 trims plain short

  -- The listener and the tray share the status file when the listener is given the tray's path.
  -- After `write_capture_status` with a status of at most 127 visible ASCII characters, whatever
  -- calls fail, and with the next descriptor free, the tray reads either what it would have read
  -- before or the health that the status stands for, never anything else. Qt reads a line of
  -- visible ASCII as it is, and `trimmed` takes its newline off.
  pub write_capture_status-capture_health :
      os.is_open os.next_fd ≡ false
      → let os' =
          (write_capture_status replies pid (capture_health_path home) (some status) os).1 in
        (capture_health from_utf8 trimmed os'.files home
          ≡ capture_health from_utf8 trimmed os.files home)
        ⊎ (capture_health from_utf8 trimmed os'.files home ≡ health_of status)
  write_capture_status-capture_health fresh =
      let atomic =
        write_capture_status-atomic replies pid (capture_health_path home) status os fresh in
      elim atomic.0.old_or_new [ inl old ↦ inl (ap read old) | inr new ↦ inr (ap read new ∙ told) ]

  -- If every call of the system succeeds and the name of the temporary file fits its buffer, the
  -- tray reads after `write_capture_status` the health that the status stands for: for a status of
  -- at most 127 visible ASCII characters at the tray's path, where Qt reads a line of visible
  -- ASCII as it is and `trimmed` takes its newline off.
  pub capture_health-write_capture_status :
      IsWorking replies
      → length (status_tmp pid (capture_health_path home)) < 8192
      → let os' =
          (write_capture_status replies pid (capture_health_path home) (some status) os).1 in
        capture_health from_utf8 trimmed os'.files home ≡ health_of status
  capture_health-write_capture_status works fits =
      let there : 0 < length (capture_health_path home) =
        omega (arith, length-append (state_root_path home) (bytes "/capture-health")) in
      ap read (
        write_capture_status-works replies works pid (capture_health_path home) status os there
          fits)
      ∙ told

-- With the path that `parse_options` takes by default, what the tray reads never changes, whatever
-- the status and whatever calls fail: the two programs name different files.
pub write_capture_status-capture_status_suffix :
    (from_utf8 trimmed : Bytes → Bytes) (replies : Replies) (pid home status : Bytes) (os : Os)
    → os.is_open os.next_fd ≡ false
    → let os' =
        (write_capture_status replies pid (home ++ capture_status_suffix) (some status) os).1 in
      capture_health from_utf8 trimmed os'.files home
      ≡ capture_health from_utf8 trimmed os.files home
write_capture_status-capture_status_suffix from_utf8 trimmed replies pid home status os fresh =
    ap (λ f. capture_health_from_status_text trimmed (text_of from_utf8 f))
      ((write_capture_status-atomic replies pid (home ++ capture_status_suffix) status os
          fresh).0.others
        (capture_health_path home) other_file other_temporary)
  where
    suffix : Bytes
    suffix = bytes "/.local/state/okay-hermes-realtime" ++ bytes "/capture-health"

    regroup : capture_health_path home ≡ home ++ suffix
    regroup =
        append_assoc home (bytes "/.local/state/okay-hermes-realtime") (bytes "/capture-health")

    -- The bytes behind "/capture" differ.
    other_file : capture_health_path home ≢ home ++ capture_status_suffix
    other_file e =
        let cut = append_cancel home suffix capture_status_suffix (sym regroup ∙ e) in
        omega (arith, ap (λ l. get_or l 42 0) cut)

    other_temporary : capture_health_path home ≢ status_tmp pid (home ++ capture_status_suffix)
    other_temporary e =
        let cut =
          append_cancel home suffix (capture_status_suffix ++ (bytes ".tmp." ++ pid))
            (sym regroup ∙ (e ∙ append_assoc home capture_status_suffix (bytes ".tmp." ++ pid))) in
        omega (arith, ap (λ l. get_or l 42 0) cut)
