-- ===== src/Session/Tokens.antt =====
-- src/realtime_action_spike/runtime/tokens.py: launch tokens that are good once. Texts are only
-- compared here, so numbers stand for them, and so do the readings of the clock.
pub mod Consumption
use okay_hermes_realtime.Base.{
  ℕ, ◌+◌, Bool, true, false, not, ◌||◌, Option, none, some, ltb, ◌==◌, if◌then◌else◌,
}

pub record TokenRecord : Type 0 where
  pub local_session_id : ℕ
  pub expires_at : ℕ
  pub generation : ℕ
  pub consumed : Bool

pub record LaunchTokenStore : Type 0 where
  pub token_ttl : ℕ
  pub records : ℕ → Option TokenRecord
  pub generation : ℕ

-- `LaunchTokenStore(token_ttl_seconds=…)`
abbrev pub new_store : ℕ → LaunchTokenStore
new_store token_ttl = record { token_ttl = token_ttl; records = λ _. none; generation = 0 }

-- `self._records[token] = …`
abbrev pub put : ℕ → Option TokenRecord → (ℕ → Option TokenRecord) → ℕ → Option TokenRecord
put token r records other = if other == token then r else records other

-- `issue(local_session_id)` where the factory makes `token` and the clock reads `now`
unfoldable pub issue : ℕ → ℕ → ℕ → LaunchTokenStore → LaunchTokenStore
issue token now local_session_id s = record s {
  generation = s.generation + 1;
  records =
      put token
        (some (record {
          local_session_id = local_session_id;
          expires_at = now + s.token_ttl;
          generation = s.generation + 1;
          consumed = false;
        }))
        s.records;
}

-- `validate`, from the record that is found on
abbrev pub validate_record : ℕ → ℕ → Option TokenRecord → Option ℕ
validate_record now generation none = none
validate_record now generation (some r) =
    if not (r.generation == generation) || r.consumed || ltb r.expires_at now
    then none
    else some r.local_session_id

unfoldable pub validate : ℕ → ℕ → LaunchTokenStore → Option ℕ
validate token now s = validate_record now s.generation (s.records token)

abbrev pub used : Option TokenRecord → Option TokenRecord
used none = none
used (some r) = some (record r { consumed = true })

-- `record.consumed = True`, if there is a record
abbrev pub mark_consumed : ℕ → LaunchTokenStore → LaunchTokenStore
mark_consumed token s = record s { records = put token (used (s.records token)) s.records }

-- What follows the validation in `consume`.
abbrev pub consume_valid : ℕ → Option ℕ → LaunchTokenStore → Option ℕ × LaunchTokenStore
consume_valid token none s = (none, s)
consume_valid token (some local_session_id) s = (some local_session_id, mark_consumed token s)

unfoldable pub consume : ℕ → ℕ → LaunchTokenStore → Option ℕ × LaunchTokenStore
unfolding validate
consume token now s = consume_valid token (validate token now s) s

unfoldable pub invalidate : ℕ → LaunchTokenStore → LaunchTokenStore
invalidate token s = mark_consumed token s
