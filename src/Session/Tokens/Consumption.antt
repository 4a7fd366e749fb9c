-- ===== src/Session/Tokens/Consumption.antt =====
-- How often a launch token of src/realtime_action_spike/runtime/tokens.py can be used.
use okay_hermes_realtime.Base.{
  ℕ, ◌+◌, ◌≡◌, ◌≤◌, ◌<◌, ◌≢◌, refl, Bool, true, false, Option, none, some, List, [], ◌∷◌, ◌==◌,
  if◌then◌else◌, arith,
}
use okay_hermes_realtime.Session.Tokens.{
  LaunchTokenStore, TokenRecord, consume, invalidate, issue, new_store, validate,
}

-- A call of the store; times and tokens are arbitrary.
pub data Call : Type 0 where
  issues : (token now local_session_id : ℕ) → Call
  consumes : (token now : ℕ) → Call
  invalidates : (token : ℕ) → Call

abbrev pub is_given : Option ℕ → Bool
is_given none = false
is_given (some id) = true

-- The calls in order: how often one token was consumed with success, and the store.
unfoldable pub run_calls : ℕ → List Call → LaunchTokenStore → ℕ × LaunchTokenStore
run_calls token [] s = (0, s)
run_calls token (issues t now id ∷ calls) s = run_calls token calls (issue t now id s)
run_calls token (invalidates t ∷ calls) s = run_calls token calls (invalidate t s)
run_calls token (consumes t now ∷ calls) s =
    let (answer, s') = consume t now s in
    let (times, s'') = run_calls token calls s' in
    (if t == token then (if is_given answer then times + 1 else times) else times, s'')

-- How often a token was issued.
unfoldable pub issued : ℕ → List Call → ℕ
issued token [] = 0
issued token (issues t now id ∷ calls) =
    if t == token then issued token calls + 1 else issued token calls
issued token (consumes t now ∷ calls) = issued token calls
issued token (invalidates t ∷ calls) = issued token calls

abbrev pub unused : Option TokenRecord → ℕ
unused none = 0
unused (some r) = if r.consumed then 0 else 1

issue-unused :
    (token t now id : ℕ) (s : LaunchTokenStore)
    → unused ((issue t now id s).records token)
      ≡ (if t == token then 1 else unused (s.records token))
unfolding issue
issue-unused token t now id s = ground arith

invalidate-unused :
    (token t : ℕ) (s : LaunchTokenStore)
    → unused ((invalidate t s).records token) ≤ unused (s.records token)
unfolding invalidate
invalidate-unused token t s = ground arith

-- A successful consumption uses the token up.
consume-unused :
    (token t now : ℕ) (s : LaunchTokenStore)
    → let (answer, s') = consume t now s in
      unused (s'.records token) + (if t == token then (if is_given answer then 1 else 0) else 0)
      ≤ unused (s.records token)
unfolding consume validate
consume-unused token t now s = ground arith

consumed-le-issued_from :
    (token : ℕ) (calls : List Call) (s : LaunchTokenStore)
    → (run_calls token calls s).0 ≤ issued token calls + unused (s.records token)
unfolding run_calls issued
consumed-le-issued_from token [] s = omega arith
consumed-le-issued_from token (issues t now id ∷ calls) s =
    ground
      (arith, consumed-le-issued_from token calls (issue t now id s), issue-unused token t now id s)
consumed-le-issued_from token (consumes t now ∷ calls) s =
    ground
      (arith, consumed-le-issued_from token calls (consume t now s).1, consume-unused token t now s)
consumed-le-issued_from token (invalidates t ∷ calls) s =
    ground
      (arith, consumed-le-issued_from token calls (invalidate t s), invalidate-unused token t s)

-- Over any calls on a new store, with tokens and times that are arbitrary, a token is consumed with
-- success at most as often as it is issued.
pub run_calls-le-issued :
    (token_ttl token : ℕ) (calls : List Call)
    → (run_calls token calls (new_store token_ttl)).0 ≤ issued token calls
run_calls-le-issued token_ttl token calls =
    omega (arith, consumed-le-issued_from token calls (new_store token_ttl))

-- No record is of a later generation than the store, and a token of an earlier one is outdated.
abbrev pub UpTo : ℕ → Option TokenRecord → Type 0
UpTo generation none = Unit {0}
UpTo generation (some r) = r.generation ≤ generation

abbrev pub Before : ℕ → Option TokenRecord → Type 0
Before generation none = Unit {0}
Before generation (some r) = r.generation < generation

abbrev pub IsNumbered : LaunchTokenStore → Type 0
IsNumbered s = (token : ℕ) → UpTo s.generation (s.records token)

issue-IsNumbered :
    (t now id : ℕ) (s : LaunchTokenStore) → IsNumbered s → IsNumbered (issue t now id s)
unfolding issue
issue-IsNumbered t now id s h token = ground (arith, h token)

consume-IsNumbered :
    (t now : ℕ) (s : LaunchTokenStore) → IsNumbered s → IsNumbered (consume t now s).1
unfolding consume
consume-IsNumbered t now s h token = ground (arith, h token, h t)

invalidate-IsNumbered : (t : ℕ) (s : LaunchTokenStore) → IsNumbered s → IsNumbered (invalidate t s)
unfolding invalidate
invalidate-IsNumbered t s h token = ground (arith, h token, h t)

run_calls-IsNumbered :
    (token : ℕ) (calls : List Call) (s : LaunchTokenStore)
    → IsNumbered s
    → IsNumbered (run_calls token calls s).1
unfolding run_calls
run_calls-IsNumbered token [] s h = h
run_calls-IsNumbered token (issues t now id ∷ calls) s h =
    run_calls-IsNumbered token calls (issue t now id s) (issue-IsNumbered t now id s h)
run_calls-IsNumbered token (consumes t now ∷ calls) s h =
    run_calls-IsNumbered token calls (consume t now s).1 (consume-IsNumbered t now s h)
run_calls-IsNumbered token (invalidates t ∷ calls) s h =
    run_calls-IsNumbered token calls (invalidate t s) (invalidate-IsNumbered t s h)

outdated_from :
    (token : ℕ) (calls : List Call) (s : LaunchTokenStore)
    → Before s.generation (s.records token)
    → issued token calls ≡ 0
    → (run_calls token calls s).0 ≡ 0
unfolding run_calls issued issue consume validate invalidate
outdated_from token [] s h none_issued = refl
outdated_from token (issues t now id ∷ calls) s h none_issued =
    ground (arith, outdated_from token calls (issue t now id s))
outdated_from token (consumes t now ∷ calls) s h none_issued =
    ground (arith, outdated_from token calls (consume t now s).1)
outdated_from token (invalidates t ∷ calls) s h none_issued =
    ground (arith, outdated_from token calls (invalidate t s))

-- After any calls on a new store: once another token is issued, a token can no longer be consumed
-- with success, until it is itself issued again.
pub run_calls_superseded :
    (token_ttl token newer now id : ℕ) (earlier later : List Call)
    → token ≢ newer
    → issued token later ≡ 0
    → (run_calls token later
        (issue newer now id (run_calls token earlier (new_store token_ttl)).1)).0
      ≡ 0
unfolding issue
run_calls_superseded token_ttl token newer now id earlier later apart none_issued =
    outdated_from token later _
      (ground (arith, run_calls-IsNumbered token earlier (new_store token_ttl) (λ t. tt) token))
      none_issued
