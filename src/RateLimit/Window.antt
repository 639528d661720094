-- ===== src/RateLimit/Window.antt =====
-- The sliding window over a run of requests.
use lite_iam.Prelude.{
  count-snoc, ℕ, Text, ◌≤◌, ◌≡◌, ◌≢◌, refl, List, [], ◌∷◌, ◌++◌, arith, leb, if◌then◌else◌, length,
  select_where, count_where, Bool-cases, inl, inr,
}
use lite_iam.RateLimit.{max_registrations, Hits, is_recent, check_and_record}

-- Requests as they come, the times of the admitted ones kept beside the counter.
pub data Served (ip : Text) : ℕ → List ℕ → Hits → Type 0 where
  nothing : Served ip 0 [] (λ other. [])
  asks :
      (last now : ℕ) (admitted : List ℕ) (hits : Hits)
      → Served ip last admitted hits
      → last ≤ now
      → Served ip now
          (if (check_and_record ip now hits).0 then admitted ++ now ∷ [] else admitted)
          (check_and_record ip now hits).1
  another :
      (last now : ℕ) (admitted : List ℕ) (hits : Hits) (other : Text)
      → Served ip last admitted hits
      → other ≢ ip
      → last ≤ now
      → Served ip now admitted (check_and_record other now hits).1

-- How many of the times lie in the hour before.
abbrev pub recent : ℕ → List ℕ → ℕ
recent now ts = count_where (is_recent now) ts

pub count-select :
    (now later : ℕ) (ts : List ℕ)
    → now ≤ later
    → count_where (is_recent later) (select_where (is_recent now) ts)
      ≡ count_where (is_recent later) ts
count-select now later [] h = refl
count-select now later (t ∷ ts) h = ground (arith, count-select now later ts h)

pub count-length :
    (now : ℕ) (ts : List ℕ)
    → length (select_where (is_recent now) ts) ≡ count_where (is_recent now) ts
count-length now [] = refl
count-length now (t ∷ ts) = ground (arith, count-length now ts)

count-later :
    (now later : ℕ) (ts : List ℕ)
    → now ≤ later
    → count_where (is_recent later) ts ≤ count_where (is_recent now) ts
count-later now later [] h = omega arith
count-later now later (t ∷ ts) h = ground (arith, count-later now later ts h)

-- The counter knows every admitted request that is still in the window.
Served-hits :
    (ip : Text) (last : ℕ) (admitted : List ℕ) (hits : Hits)
    → Served ip last admitted hits
    → (later : ℕ) → last ≤ later
    → recent later admitted ≡ recent later (hits ip)
unfolding check_and_record
Served-hits ip last admitted hits nothing later h = refl
Served-hits ip _ _ _ (asks last now admitted hits served after) later h =
    elim (Bool-cases (leb max_registrations (length (select_where (is_recent now) (hits ip))))) [
      | inl full ↦ rw full (
          ground (
            arith,
            Served-hits ip last admitted hits served later,
            count-select now later (hits ip),
          ))
      | inr free ↦
          rw (free, count-snoc)
            (ground (
              arith,
              Served-hits ip last admitted hits served later,
              count-select now later (hits ip),
              count-snoc (is_recent later) (select_where (is_recent now) (hits ip)) now,
            ))
    ]
Served-hits ip _ _ _ (another last now admitted hits other served ne after) later h =
    ground (arith, Served-hits ip last admitted hits served later)

-- Whatever registrations are asked for, from any addresses, at times that do not decrease, at most
-- five of one address are admitted in the hour before each request.
pub at_most_five_an_hour :
    (ip : Text) (last : ℕ) (admitted : List ℕ) (hits : Hits)
    → Served ip last admitted hits
    → recent last admitted ≤ max_registrations
unfolding check_and_record
at_most_five_an_hour ip last admitted hits nothing = omega arith
at_most_five_an_hour ip _ _ _ (asks last now admitted hits served after) =
    elim (Bool-cases (leb max_registrations (length (select_where (is_recent now) (hits ip))))) [
      | inl full ↦ rw full (
          ground (
            arith,
            at_most_five_an_hour ip last admitted hits served,
            count-later last now admitted after,
          ))
      | inr free ↦
          rw (free, count-snoc)
            (ground (
              arith,
              Served-hits ip last admitted hits served now after,
              count-length now (hits ip),
            ))
    ]
at_most_five_an_hour ip _ _ _ (another last now admitted hits other served ne after) =
    ground (
      arith,
      at_most_five_an_hour ip last admitted hits served,
      count-later last now admitted after,
    )
