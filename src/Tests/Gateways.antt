-- ===== src/Tests/Gateways.antt =====
-- The theorems on the gateway, at concrete inputs.
use l.Prelude.{
  ◌≤◌, ℕ, zero, suc, ◌+◌, String, ◌≡◌, ◌≢◌, ◌⊎◌, refl, inl, inr, [], ◌∷◌, Option, none, some, true,
  arith, eq_iff,
}
use l.Prelude.Lists.{Member}
use l.Errors.{Error, Code}
use l.Exec.{Result, ok, err, Exec}
use l.Gateway.Http.{UserInfo, Request, Reply, Handler}
use l.Gateway.Mdwr.{jwt_auth, request_id_mdwr, rate_key}
use l.Gateway.Mdwr.Auth.{Refused, Admitted, jwt_auth-Admitted}
use l.Gateway.Mdwr.Limit.{after_all, after_all-no_expiry}
use l.Gateway.Mdwr.Concurrent.{play}
use l.Gateway.Mdwr.Concurrent.Rate.{play-limits}
use l.Gateway.Service.{rpc}
use l.Gateway.Service.Retries.{Meter, Metered, Tried, rpc-Tried}
use l.Tests.Cache.{Cache, redis, redis-IsRedis}
use l.Tests.Cache
use l.Tests.Tokens.{uuid}

abbrev pub get : Request
get = record {
  method = "DELETE";
  url = "/api/users/del/me";
  path = "/api/users/del/me";
  remote_addr = "10.0.0.1:5000";
  headers = ("Authorization", "Bearer abc") ∷ [];
  cookies = ("session_key", uuid) ∷ [];
  params = [];
  context = [];
}

-- The user service accepts every token, and the state counts the calls.
abbrev pub ext : String → String → String → Exec ℕ UserInfo
ext token sk rq w = (ok (record { role = "guest"; user_id = uuid }), w + 1)

abbrev pub new_uuid : ℕ → String × ℕ
new_uuid w = (uuid, w)

abbrev served : Handler ℕ
served r w = (Reply.status 200, w + 1)

pub some_id : uuid ≢ ""
some_id h = ground (arith, eq_iff uuid "")

jwt_auth-Admitted_example :
    let result = request_id_mdwr new_uuid (jwt_auth true ext served) get 0 in
    Refused true ext new_uuid uuid 0 result ⊎ Admitted true ext new_uuid served get uuid 0 result
jwt_auth-Admitted_example = jwt_auth-Admitted true ext new_uuid served get 0 refl some_id

abbrev fresh : Cache
fresh = record { hashes = λ k. []; counters = λ k. 49; ttls = λ k. none }

incr_up : (k : String) (s : Cache) → (n : ℕ) × (s' : Cache) × (redis.incr k s ≡ (ok n, s'))
incr_up k s = (_, _, refl)

both : (r : Request) → Member r (get ∷ get ∷ []) → rate_key r ≡ rate_key get
both r listed = elim listed [
  | inl same ↦ rw same
  | inr (inl same) ↦ rw same
  | inr (inr impossible) ↦ absurd impossible
]

-- Calls and seconds slept; the first two calls fail.
abbrev Log : Type 0
Log = ℕ × ℕ

abbrev busy : ℕ → Result String
busy zero = err (Error.status Code.unavailable "busy")
busy (suc zero) = err (Error.status Code.aborted "busy")
busy _ = ok "done"

abbrev call : Exec Log String
call (calls, slept) = (busy calls, (calls + 1, slept))

abbrev sleep : ℕ → Log → Log
sleep n (calls, slept) = (calls, slept + n)

abbrev from_error : Error → Option Code
from_error (Error.status code s) = some code
from_error _ = none

abbrev meter : Meter Log
meter = record { calls = λ s. s.0; slept = λ s. s.1 }

call-Metered : Metered sleep call meter
call-Metered = record {
  one_call = λ s. refl;
  no_sleep = λ s. refl;
  no_call = λ n s. refl;
  sleeps = λ n s. refl;
}

rpc-Tried_example :
    let p = rpc from_error sleep call (0, 0) in Tried from_error sleep call meter 0 3 (0, 0) p.0 p.1
rpc-Tried_example = rpc-Tried from_error sleep call meter call-Metered (0, 0)

-- The address of the request has been counted fifty times, and its counter does not expire.
abbrev stuck : Cache
stuck = record { hashes = λ k. []; counters = λ k. 50; ttls = λ k. none }

after_all-no_expiry_example :
    let state =
      after_all redis Cache.view redis-IsRedis incr_up served
        (λ w. w)
        (λ r w. refl)
        (get ∷ get ∷ [])
        (stuck, 7) in
    (state.0.ttls (rate_key get) ≡ none) × (state.1 ≡ 7)
after_all-no_expiry_example =
    after_all-no_expiry redis Cache.view redis-IsRedis incr_up served (λ w. w) (λ r w. refl)
      (rate_key get) (get ∷ get ∷ []) stuck 7 both (omega arith) refl

-- Two requests of one address take turns; the counter is at 49.
play-limits_example : (1 ≤ 1) × (1 ≤ 1)
unfolding play l.Strings.split
play-limits_example =
    play-limits redis Cache.view redis-IsRedis incr_up (rate_key get) (0 ∷ 1 ∷ 1 ∷ 0 ∷ 1 ∷ 0 ∷ [])
      (get ∷ get ∷ []) fresh
