-- ===== src/HttpClients.antt =====
-- app/shared/http_clients.py: the pools of outbound clients, and their bounded retries.
--
-- Times are in tenths of a second. What the receiver does at each attempt is an argument, and so is
-- whether httpx has closed a client. A KeyError and a RuntimeError are `internal`. What a caller
-- passes on to httpx (headers, base address, transport) is left out. A method is given in capitals.
mod Retry
mod Reuse
mod Tests
use lite_iam.Prelude.{
  ℕ, zero, suc, Text, ◌+◌, ◌*◌, Bool, true, false, not, Option, none, some, List, [], ◌∷◌, ◌==◌,
  leb, ltb, contains, lookup, truthy, if◌then◌else◌, ◌&&◌, ◌++◌,
}
use lite_iam.Database.{Result, ok, err, Error, internal}

-- `TransportProfile`, with its defaults.
pub record TransportProfile : Type 0 where
  pub timeout : ℕ
  pub connect_timeout : ℕ
  pub max_connections : ℕ
  pub max_keepalive_connections : ℕ
  pub keepalive_expiry : ℕ
  pub max_attempts : ℕ
  pub retry_statuses : List ℕ

abbrev pub profile_of : ℕ → ℕ → TransportProfile
profile_of timeout max_attempts = record {
  timeout = timeout;
  connect_timeout = 50;
  max_connections = 100;
  max_keepalive_connections = 20;
  keepalive_expiry = 300;
  max_attempts = max_attempts;
  retry_statuses = 408 ∷ 429 ∷ 502 ∷ 503 ∷ 504 ∷ [];
}

-- "identity", "billing", "provider-short", "provider-long", "internal"
abbrev pub identity : Text
identity = 6000001

abbrev pub billing : Text
billing = 6000002

abbrev pub provider_short : Text
provider_short = 6000003

abbrev pub provider_long : Text
provider_long = 6000004

abbrev pub internal_traffic : Text
internal_traffic = 6000005

abbrev pub default_transport_profiles : List (Text × TransportProfile)
default_transport_profiles =
    (identity, profile_of 150 2)
    ∷ (billing, profile_of 300 2)
    ∷ (provider_short, profile_of 150 3)
    ∷ (
      provider_long,
      record (profile_of 9000 1) {
        connect_timeout = 100;
        max_connections = 40;
        max_keepalive_connections = 10;
      },
    )
    ∷ (
      internal_traffic,
      record (profile_of 600 2) { max_connections = 200; max_keepalive_connections = 50 },
    )
    ∷ []

pub record Client : Type 0 where
  pub id : ℕ
  pub policy : TransportProfile

-- `OutboundClientRegistry`
pub record Registry : Type 0 where
  pub profiles : List (Text × TransportProfile)
  pub clients : List (Text × Client)
  pub closed : Bool

abbrev pub new_registry : List (Text × TransportProfile) → Registry
new_registry extra = record {
  profiles = extra ++ default_transport_profiles;
  clients = [];
  closed = false;
}

-- `name or profile`
abbrev pub client_name : Text → Option Text → Text
client_name profile none = profile
client_name profile (some name) = if truthy name then name else profile

module _ (is_closed : ℕ → Bool) where
  -- `get`, with the id that a new client would have.
  abbrev pub create : Text → Text → ℕ → Registry → Result Client × Registry
  create profile name fresh r = elim (lookup profile r.profiles) [
    | none ↦ (err internal, r)
    | some policy ↦ (
      ok (record { id = fresh; policy = policy }),
      record r { clients = (name, record { id = fresh; policy = policy }) ∷ r.clients },
    )
  ]

  unfoldable pub get : Text → Option Text → ℕ → Registry → Result Client × Registry
  get profile name fresh r =
      if r.closed then (err internal, r) else elim (lookup (client_name profile name) r.clients) [
        | none ↦ create profile (client_name profile name) fresh r
        | some c ↦
            if is_closed c.id then create profile (client_name profile name) fresh r else (ok c, r)
      ]

pub aclose : Registry → Registry
aclose r = if r.closed then r else record r { closed = true; clients = [] }

-- What an attempt comes to: a response with its status, one of the three transport errors, or
-- another exception.
pub data Attempt : Type 0 where
  response : ℕ → Attempt
  transport_error other_error : Attempt

-- `min(0.1 * (2 ** (attempt - 1)), 1.0)` of the attempts from 1.
abbrev pub power : ℕ → ℕ
power zero = 1
power (suc n) = 2 * power n

abbrev pub backoff : ℕ → ℕ
backoff done = if leb (power done) 10 then power done else 10

-- GET, HEAD, OPTIONS, PUT and DELETE
abbrev pub idempotent_methods : List Text
idempotent_methods = 6000011 ∷ 6000012 ∷ 6000013 ∷ 6000014 ∷ 6000015 ∷ []

abbrev pub may_retry : Text → Option Bool → Bool
may_retry method none = contains idempotent_methods method
may_retry method (some idempotent) = idempotent

-- The end of a request: the status or the exception, the attempts made and the time slept.
pub record Ended : Type 0 where
  pub reply : Result ℕ
  pub attempts : ℕ
  pub slept : ℕ

abbrev pub longer : ℕ → Ended → Ended
longer pause e = record e { slept = pause + e.slept }

module _ (policy : TransportProfile) (answer : ℕ → Attempt) where
  abbrev ends : Result ℕ → ℕ → Ended
  ends reply attempt = record { reply = reply; attempts = attempt; slept = 0 }

  -- The end at this attempt, the last one or not, or `none` where it is retried.
  abbrev pub decided : Bool → Attempt → Option (Result ℕ)
  decided last (response status) =
      if not last && contains policy.retry_statuses status then none else some (ok status)
  decided last transport_error = if last then some (err internal) else none
  decided last other_error = some (err internal)

  abbrev pub resume : Option (Result ℕ) → ℕ → Ended → Ended
  resume none done rest = longer (backoff done) rest
  resume (some reply) done rest = ends reply (suc done)

  -- The attempts that are left, after `done` of them.
  unfoldable pub attempt_from : ℕ → ℕ → Ended
  attempt_from zero done = ends (err internal) done
  attempt_from (suc left) done =
      let rest = attempt_from left (suc done) in
      resume (decided (left == 0) (answer (suc done))) done rest

  unfoldable pub run_request : Text → Option Bool → Ended
  unfolding attempt_from
  run_request method idempotent =
      attempt_from (if may_retry method idempotent then policy.max_attempts else 1) 0

-- `request`: the profile, the client, and the attempts.
abbrev answered : Result Client × Registry → Ended → Result ℕ × Registry
answered (ok c, r) e = (e.reply, r)
answered (err x, r) e = (err x, r)

pub request :
    (ℕ → Bool)
    → (ℕ → Attempt)
    → Text
    → Text
    → Option Text
    → Option Bool
    → ℕ
    → Registry
    → Result ℕ × Registry
unfolding get run_request
request is_closed answer profile method name idempotent fresh r = elim (lookup profile r.profiles) [
  | none ↦ (err internal, r)
  | some policy ↦
      answered (get is_closed profile name fresh r) (run_request policy answer method idempotent)
]
