-- ===== src/HttpClients/Tests.antt =====
-- Requests that are retried, and a registry that hands out one client for a name.
use lite_iam.Prelude.{ℕ, ◌≡◌, refl, Bool, false, none, [], ◌==◌, if◌then◌else◌, arith}
use lite_iam.Database.{ok}
use lite_iam.HttpClients.{
  Attempt, response, transport_error, get, new_registry, profile_of, provider_short, may_retry,
  run_request,
}
use lite_iam.HttpClients.Retry.{IsEnd, request_stops}

abbrev unavailable_twice : ℕ → Attempt
unavailable_twice k =
    if k == 1 then transport_error else if k == 2 then response 503 else response 200

-- A GET request, and a POST request.
abbrev get_method : ℕ
get_method = 6000011

abbrev post_method : ℕ
post_method = 6000016

retried_run :
    run_request (profile_of 150 3) unavailable_twice get_method none
    ≡ record { reply = ok 200; attempts = 3; slept = 3 }
unfolding run_request
retried_run = refl

request_stops_example :
    IsEnd
      (profile_of 150 3)
      unavailable_twice
      0
      (if may_retry get_method none then 3 else 1)
      (run_request (profile_of 150 3) unavailable_twice get_method none)
request_stops_example =
    request_stops (profile_of 150 3) unavailable_twice get_method none (ground arith)

abbrev always_open : ℕ → Bool
always_open id = false

first_client :
    (get always_open provider_short none 1 (new_registry [])).0
    ≡ ok (record { id = 1; policy = profile_of 150 3 })
unfolding get
first_client = refl
