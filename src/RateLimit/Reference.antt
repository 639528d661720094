-- ===== src/RateLimit/Reference.antt =====
-- The limit over a log that forgets nothing, and the counter as its implementation.
use lite_iam.Prelude.{
  count-snoc, ℕ, Text, ◌+◌, ◌≤◌, ◌≡◌, refl, Bool, true, false, List, [], ◌∷◌, ◌++◌, arith, leb, ltb,
  if◌then◌else◌, inl, inr, Bool-cases, sym, ◌∙◌, ap, length, select_where, ◌==◌, eq_of_==,
}
use lite_iam.RateLimit.{Hits, set, is_recent, max_registrations, check_and_record}
use lite_iam.RateLimit.Window.{recent, count-select, count-length}

-- Every admitted time of every address.
abbrev pub Log : Type 0
Log = Text → List ℕ

-- A registration is admitted if fewer than five of its address lie in the hour before it.
abbrev pub reference : Text → ℕ → Log → Bool × Log
reference ip now log =
    if ltb (recent now (log ip)) max_registrations
    then (true, set ip (log ip ++ now ∷ []) log)
    else (false, log)

-- From a time on, the counter and the log have the same recent times of each address.
abbrev pub Refines : ℕ → Hits → Log → Type 0
Refines last hits log =
    (ip : Text) (later : ℕ) → last ≤ later → recent later (hits ip) ≡ recent later (log ip)

module _ (last now : ℕ) (ip : Text) (hits : Hits) (log : Log) (related : Refines last hits log)
    (after : last ≤ now) where
  same_count : length (select_where (is_recent now) (hits ip)) ≡ recent now (log ip)
  same_count = count-length now (hits ip) ∙ related ip now after

  admits :
      ltb (recent now (log ip)) max_registrations ≡ true
      → (check_and_record ip now hits
          ≡ (true, set ip (select_where (is_recent now) (hits ip) ++ now ∷ []) hits))
        × (reference ip now log ≡ (true, set ip (log ip ++ now ∷ []) log))
  unfolding check_and_record
  admits few =
      let free : leb max_registrations (length (select_where (is_recent now) (hits ip))) ≡ false =
        ground (arith, same_count) in
      (rw free refl, rw few refl)

  refuses :
      ltb (recent now (log ip)) max_registrations ≡ false
      → (check_and_record ip now hits
          ≡ (false, set ip (select_where (is_recent now) (hits ip)) hits))
        × (reference ip now log ≡ (false, log))
  unfolding check_and_record
  refuses many =
      let full : leb max_registrations (length (select_where (is_recent now) (hits ip))) ≡ true =
        ground (arith, same_count) in
      (rw full refl, rw many refl)

  admitted-Refines :
      Refines now
        (set ip (select_where (is_recent now) (hits ip) ++ now ∷ []) hits)
        (set ip (log ip ++ now ∷ []) log)
  admitted-Refines other later h = elim (Bool-cases (other == ip)) [
    | inr elsewhere ↦ rw elsewhere (related other later (omega arith))
    | inl here ↦ rw here (
        count-snoc (is_recent later) (select_where (is_recent now) (hits ip)) now
        ∙ (ap (λ n. n + (if is_recent later now then 1 else 0))
              (count-select now later (hits ip) h ∙ related ip later (omega arith))
            ∙ sym (count-snoc (is_recent later) (log ip) now)))
  ]

  refused-Refines : Refines now (set ip (select_where (is_recent now) (hits ip)) hits) log
  refused-Refines other later h = elim (Bool-cases (other == ip)) [
    | inr elsewhere ↦ rw elsewhere (related other later (omega arith))
    | inl here ↦ rw here (
        count-select now later (hits ip) h
        ∙ related ip later (omega arith)
        ∙ ap (λ a. recent later (log a)) (sym (eq_of_== other ip here)))
  ]

-- The counter refines a limit over a log that forgets nothing. If they have the same recent times
-- of every address, then a registration that comes no earlier than the last is admitted by the
-- counter exactly where fewer than five of the log's times of its address lie in the hour before,
-- and they have the same recent times afterwards.
pub check_and_record-Refines :
    (last now : ℕ) (ip : Text) (hits : Hits) (log : Log)
    → Refines last hits log
    → last ≤ now
    → ((check_and_record ip now hits).0 ≡ (reference ip now log).0)
      × Refines now (check_and_record ip now hits).1 (reference ip now log).1
check_and_record-Refines last now ip hits log related after =
    elim (Bool-cases (ltb (recent now (log ip)) max_registrations)) [
      | inl few ↦
          let (counted, logged) = admits last now ip hits log related after few in
          rw (counted, logged) (refl, admitted-Refines last now ip hits log related after)
      | inr many ↦
          let (counted, logged) = refuses last now ip hits log related after many in
          rw (counted, logged) (refl, refused-Refines last now ip hits log related after)
    ]
