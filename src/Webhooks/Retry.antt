-- ===== src/Webhooks/Retry.antt =====
-- app/core/events.py: the attempts of a delivery.
use lite_iam.Prelude.{
  ℕ, ◌+◌, ◌≤◌, ◌<◌, ◌≡◌, refl, Bool, true, false, List, [], ◌∷◌, arith, length, count_where, inl,
  inr, if◌then◌else◌, Option, Bool-cases, ◌≢◌, ap, ◌-◌, sym, ◌∙◌,
}
use lite_iam.Models.{WebhookDelivery}
use lite_iam.Webhooks.{deliver_from, deliver_with_retry, is_success, retry_delays}

module _ (answer : ℕ → Option ℕ) (webhook_id delivery_group_id : ℕ) where
  -- The seconds of a schedule.
  abbrev total : List ℕ → ℕ
  total [] = 0
  total (delay ∷ delays) = delay + total delays

  abbrev run : List ℕ → ℕ → List WebhookDelivery × Bool × ℕ
  run delays attempt = deliver_from answer webhook_id delivery_group_id delays attempt

  deliver_from_bounds :
      (delays : List ℕ) (attempt : ℕ)
      → let (rows, delivered, slept) = run delays attempt in
        (length rows ≤ length delays)
        × (slept ≤ total delays)
        × (count_where (λ r. r.success) rows ≡ (if delivered then 1 else 0))
        × (delivered ≡ false → length rows ≡ length delays)
  unfolding deliver_from
  deliver_from_bounds [] attempt = (omega arith, omega arith, refl, λ h. refl)
  deliver_from_bounds (delay ∷ delays) attempt =
      let (fewer, sooner, once, exhausted) = deliver_from_bounds delays (attempt + 1) in
      elim (Bool-cases (is_success (answer attempt))) [
        | inl hit ↦ rw hit (ground arith)
        | inr missed ↦ rw missed (ground arith)
      ]

  -- The attempt is one that the schedule makes.
  delivered_from :
      (delays : List ℕ) (attempt n : ℕ)
      → n < length delays
      → is_success (answer (attempt + n)) ≡ true
      → (run delays attempt).1 ≡ true
  unfolding deliver_from
  delivered_from [] attempt n early hit = absurd (ground arith)
  delivered_from (delay ∷ delays) attempt n early hit =
      elim (Bool-cases (is_success (answer attempt))) [
        | inl at_once ↦ rw at_once refl
        | inr missed ↦
            let here : n ≢ 0 =
              λ first. ground (arith, ap (λ k. is_success (answer (attempt + k))) first) in
            let later : attempt + n ≡ (attempt + 1) + (n - 1) = omega arith in
            rw missed (
              delivered_from delays (attempt + 1) (n - 1) (omega arith)
                (sym (ap (λ k. is_success (answer k)) later) ∙ hit))
      ]

  -- The delivery of a webhook ends after at most three attempts and 330 seconds of waiting, with
  -- exactly one success in its log where it delivered and three failures where it did not; and if
  -- the receiver answers one of the first three attempts with a 2xx status, it delivers.
  pub delivery_stops :
      let (rows, delivered, slept) = deliver_with_retry answer webhook_id delivery_group_id in
      (length rows ≤ 3)
      × (slept ≤ 330)
      × (count_where (λ r. r.success) rows ≡ (if delivered then 1 else 0))
      × (delivered ≡ false → length rows ≡ 3)
      × ((n : ℕ) → n < 3 → is_success (answer n) ≡ true → delivered ≡ true)
  unfolding deliver_with_retry
  delivery_stops =
      let (fewer, sooner, once, exhausted) = deliver_from_bounds retry_delays 0 in
      (
        fewer,
        sooner,
        once,
        exhausted,
        λ n early hit.
            let from_start : 0 + n ≡ n = omega arith in
            delivered_from retry_delays 0 n early
              (ap (λ k. is_success (answer k)) from_start ∙ hit),
      )
