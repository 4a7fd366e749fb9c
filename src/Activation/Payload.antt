-- ===== src/Activation/Payload.antt =====
-- The payload of an activation fits its buffer, and what arrives on the standard output.
use okay_hermes_realtime.Base.{
  ℕ, ◌+◌, ◌≤◌, ◌<◌, ◌≡◌, refl, true, false, some, [], ◌∷◌, ◌++◌, arith, leb, length, length-append,
  take,
}
use okay_hermes_realtime.Base.Bytes.{bytes}
use okay_hermes_realtime.Float.{Float, Double}
use okay_hermes_realtime.Posix.{Replies, Os}
use okay_hermes_realtime.Posix.Write.{write_all-Outcome}
use okay_hermes_realtime.Storage.{newline}
use okay_hermes_realtime.Activation.{
  Printf, payload_text, build_activation_payload, activation_payload, write_activation,
}

module _ (F : Float) (D : Double) (p : Printf F D) where
  length-payload_text :
      (probability : F.Value) (detected_at : D.Value)
      → length (payload_text F D p probability (bytes "activation") detected_at true)
        ≡ length (p.float_9f probability) + (length (p.double_9f detected_at) + 75)
  unfolding payload_text
  length-payload_text probability detected_at = omega (
    arith,
    length-append (p.float_9f probability) (
        bytes ",\"detected_at\":"
        ++ (p.double_9f detected_at ++ (bytes ",\"native_listener\":true}" ++ (newline ∷ [])))),
    length-append (p.double_9f detected_at) (bytes ",\"native_listener\":true}" ++ (newline ∷ [])),
  )

  build_activation_payload-some :
      (probability : F.Value) (detected_at : D.Value)
      → F.is_finite probability ≡ true
      → F.lt probability (F.of_unsigned 0) ≡ false
      → F.lt (F.of_unsigned 1) probability ≡ false
      → D.is_finite detected_at ≡ true
      → build_activation_payload F D p 256 probability (bytes "activation") detected_at true
        ≡ some (payload_text F D p probability (bytes "activation") detected_at true)
  unfolding build_activation_payload
  build_activation_payload-some probability detected_at finite low high clock =
      rw (finite, low, high, clock) refl

  activation_payload-some :
      (probability : F.Value) (detected_at : D.Value)
      → F.is_finite probability ≡ true
      → F.lt probability (F.of_unsigned 0) ≡ false
      → F.lt (F.of_unsigned 1) probability ≡ false
      → D.is_finite detected_at ≡ true
      → length (p.float_9f probability) + length (p.double_9f detected_at) ≤ 180
      → activation_payload F D p probability detected_at
        ≡ some (payload_text F D p probability (bytes "activation") detected_at true)
  unfolding activation_payload
  activation_payload-some probability detected_at finite low high clock short =
      let payload = payload_text F D p probability (bytes "activation") detected_at true in
      let fits : leb 256 (length payload) ≡ false =
        ground (arith, length-payload_text probability detected_at) in
      rw (build_activation_payload-some probability detected_at finite low high clock, fits) refl

  -- A finite probability between 0 and 1 and a finite time, whose texts have together at most 180
  -- characters, always give a payload that fits the buffer. What `write_activation` then brings to
  -- the standard output, whatever the writes do, is the beginning of the payload, and all of it if
  -- it reports success.
  pub write_activation-payload_text :
      (replies : Replies) (probability : F.Value) (detected_at : D.Value) (os : Os)
      → F.is_finite probability ≡ true
      → F.lt probability (F.of_unsigned 0) ≡ false
      → F.lt (F.of_unsigned 1) probability ≡ false
      → D.is_finite detected_at ≡ true
      → length (p.float_9f probability) + length (p.double_9f detected_at) ≤ 180
      → let payload = payload_text F D p probability (bytes "activation") detected_at true in
        let sent =
          (write_activation replies (activation_payload F D p probability detected_at) os).0 in
        (count : ℕ) × (sent.text ≡ take count payload)
        × (sent.done ≡ true → count ≡ length payload)
        × (sent.done ≡ false → count < length payload)
  unfolding write_activation
  write_activation-payload_text replies probability detected_at os finite low high clock short =
      let payload = payload_text F D p probability (bytes "activation") detected_at true in
      let o = write_all-Outcome replies payload os.calls in
      rw (activation_payload-some probability detected_at finite low high clock short, o.returns)
        (o.count, o.arrived, o.all, o.part)
