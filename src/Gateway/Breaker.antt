-- ===== src/Gateway/Breaker.antt =====
-- api-gateway/internal/cbreaker/cb.go: the settings of the circuit breaker of a client. gobreaker is a
-- parameter, of which its documented behaviour under these settings is assumed. OnStateChange, which
-- logs, is left out.
pub mod Trips
use l.Prelude.{ℕ, ◌+◌, ◌*◌, ◌%◌, ◌^◌, String, ◌≡◌, Bool, true, false, ltb, if◌then◌else◌}
use l.Errors.{Error}
use l.Exec.{ok, err, Exec}

-- gobreaker.Counts, of uint32 fields: the one that the settings read.
pub record Counts : Type 0 where
  pub consecutive_failures : ℕ

-- gobreaker.Settings; a time is in seconds.
pub record Settings : Type 0 where
  pub name : String
  pub max_requests : ℕ
  pub interval : ℕ
  pub timeout : ℕ
  pub ready_to_trip : Counts → Bool

-- NewCb
unfoldable pub new_cb : String → Settings
new_cb name = record {
  name = name;
  max_requests = 5;
  interval = 60;
  timeout = 5 * 60;
  ready_to_trip = λ counts. ltb 5 counts.consecutive_failures;
}

-- gobreaker.State
pub data Phase : Type 0 where
  state_closed state_half_open state_open : Phase

-- What can be said of a breaker: its phase, its counts, and whether the time of its phase is over by
-- then, which is Interval for a closed one and Timeout for an open one.
pub record BreakerView (B S : Type 0) : Type 0 where
  pub phase : B → Phase
  pub counts : B → Counts
  pub is_over : B → S → Bool

-- The counts after one more failure.
abbrev pub one_more : Counts → Counts
one_more c = record { consecutive_failures = (c.consecutive_failures + 1) % 2 ^ 32 }

-- What a counted failure makes of a closed breaker.
abbrev pub Next : {B S : Type 0} → Settings → BreakerView B S → B → B → Type 0
Next st v b b' =
    if st.ready_to_trip (one_more (v.counts b))
    then v.phase b' ≡ Phase.state_open
    else (v.phase b' ≡ Phase.state_closed) × (v.counts b' ≡ one_more (v.counts b))

module _ {S B Any : Type 0} (st : Settings) (execute_any : Exec S Any → Exec (B × S) Any)
    (v : BreakerView B S) (open_state : Error) where
  -- The breaker of these settings. While it is closed, every request runs, and an error, of whatever
  -- kind, is counted and may trip it; while it is open, none runs.
  pub record IsGobreaker : Type 0 where
    pub success_while_closed :
        (fn : Exec S Any) (b : B) (s s' : S) (a : Any)
        → v.phase b ≡ Phase.state_closed
        → fn s ≡ (ok a, s')
        → (b' : B) × (execute_any fn (b, s) ≡ (ok a, (b', s'))) × (v.phase b' ≡ Phase.state_closed)
    pub failure_while_closed :
        (fn : Exec S Any) (b : B) (s s' : S) (e : Error)
        → v.phase b ≡ Phase.state_closed
        → v.is_over b s ≡ false
        → v.is_over b s' ≡ false
        → fn s ≡ (err e, s')
        → (b' : B) × (execute_any fn (b, s) ≡ (err e, (b', s'))) × Next st v b b'
    pub refused_while_open :
        (fn : Exec S Any) (b : B) (s : S)
        → v.phase b ≡ Phase.state_open
        → v.is_over b s ≡ false
        → execute_any fn (b, s) ≡ (err open_state, (b, s))
