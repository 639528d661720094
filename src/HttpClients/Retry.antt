-- ===== src/HttpClients/Retry.antt =====
-- app/shared/http_clients.py: how often a request is sent.
use lite_iam.Prelude.{
  ℕ, zero, suc, Text, ◌+◌, ◌*◌, ◌≡◌, ◌≤◌, ◌<◌, refl, Bool, true, false, Option, none, some, ◌==◌,
  contains, if◌then◌else◌, arith, Bool-cases, inl, inr, eq_of_==,
}
use lite_iam.Database.{Result, ok, err, internal}
use lite_iam.HttpClients.{
  TransportProfile, Attempt, response, transport_error, other_error, Ended, attempt_from,
  run_request, may_retry, decided, backoff, resume,
}

-- What the caller is told of an attempt.
abbrev pub reply_of : Attempt → Result ℕ
reply_of (response status) = ok status
reply_of transport_error = err internal
reply_of other_error = err internal

module _ (policy : TransportProfile) (answer : ℕ → Attempt) where
  -- An attempt that is followed by another, if one is left.
  abbrev pub is_retried : Attempt → Bool
  is_retried (response status) = contains policy.retry_statuses status
  is_retried transport_error = true
  is_retried other_error = false

  decided-none :
      (last : Bool) (a : Attempt)
      → decided policy answer last a ≡ none
      → (last ≡ false) × (is_retried a ≡ true)
  decided-none true (response status) h = absurd (ground arith)
  decided-none true transport_error h = absurd (ground arith)
  decided-none true other_error h = absurd (ground arith)
  decided-none false (response status) h = (refl, ground arith)
  decided-none false transport_error h = (refl, refl)
  decided-none false other_error h = absurd (ground arith)

  decided-some :
      (last : Bool) (a : Attempt) (r : Result ℕ)
      → decided policy answer last a ≡ some r
      → r ≡ reply_of a
  decided-some true (response status) r h = ground arith
  decided-some true transport_error r h = ground arith
  decided-some true other_error r h = ground arith
  decided-some false (response status) r h = ground arith
  decided-some false transport_error r h = ground arith
  decided-some false other_error r h = ground arith

  backoff-le : (done : ℕ) → backoff done ≤ 10
  backoff-le done = ground arith

  -- The end of the attempts, of which some were made before.
  pub record IsEnd (before left : ℕ) (e : Ended) : Type 0 where
    pub some_made : before < e.attempts
    pub few_made : e.attempts ≤ before + left
    pub told : e.reply ≡ reply_of (answer e.attempts)
    pub short : e.slept + 10 ≤ 10 * left
    pub needed : (k : ℕ) → before < k → k < e.attempts → is_retried (answer k) ≡ true

  resume-IsEnd :
      (left before : ℕ) (d : Option (Result ℕ)) (rest : Ended)
      → ((r : Result ℕ) → d ≡ some r → r ≡ reply_of (answer (suc before)))
      → (d ≡ none → (is_retried (answer (suc before)) ≡ true) × IsEnd (suc before) left rest)
      → IsEnd before (suc left) (resume policy answer d before rest)
  resume-IsEnd left before (some r) rest told retried = record {
    some_made = omega arith;
    few_made = omega arith;
    told = told r refl;
    short = omega arith;
    needed = λ k after early. absurd (omega arith);
  }
  resume-IsEnd left before none rest told retried =
      let later = (retried refl).1 in
      record {
        some_made = (let made = later.some_made in omega arith);
        few_made = (let made = later.few_made in omega arith);
        told = later.told;
        short = (let fast = backoff-le before in let short = later.short in omega arith);
        needed = λ k after early. elim (Bool-cases (k == suc before)) [
          | inl e ↦ (let same = eq_of_== k (suc before) e in let again = (retried refl).0 in cc)
          | inr ne ↦ later.needed k (ground arith) early
        ];
      }

  attempt_from-IsEnd :
      (left before : ℕ) → IsEnd before (suc left) (attempt_from policy answer (suc left) before)
  unfolding attempt_from
  attempt_from-IsEnd zero before =
      resume-IsEnd zero before _ _ (decided-some true (answer (suc before)))
        (λ h. (let e = (decided-none true (answer (suc before)) h).0 in absurd (ground arith)))
  attempt_from-IsEnd (suc left) before =
      resume-IsEnd (suc left) before _ _ (decided-some (suc left == 0) (answer (suc before))) (λ h.
        (
          (decided-none (suc left == 0) (answer (suc before)) h).1,
          attempt_from-IsEnd left (suc before),
        ))

  positive-IsEnd : (n : ℕ) → 0 < n → IsEnd 0 n (attempt_from policy answer n 0)
  positive-IsEnd zero h = absurd (omega arith)
  positive-IsEnd (suc left) h = attempt_from-IsEnd left 0

  -- A request over a profile that allows an attempt ends: after at most the allowed attempts if it
  -- may be retried, and after one if not, having slept at most one second for each attempt but one.
  -- The caller is told what the last attempt came to, and every attempt before it was one that may
  -- be retried: a transport error or one of the profile's statuses.
  pub request_stops :
      (method : Text) (idempotent : Option Bool)
      → 0 < policy.max_attempts
      → IsEnd 0
          (if may_retry method idempotent then policy.max_attempts else 1)
          (run_request policy answer method idempotent)
  unfolding run_request
  request_stops method idempotent allowed =
      positive-IsEnd (if may_retry method idempotent then policy.max_attempts else 1) (ground arith)
