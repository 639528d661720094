-- ===== src/RateLimit/Tests.antt =====
-- Registrations from the addresses 71 and 72.
use lite_iam.Prelude.{◌≡◌, refl, false, [], ◌∷◌, arith}
use lite_iam.RateLimit.{Hits, check_and_record}
use lite_iam.RateLimit.Reference.{reference, Refines, check_and_record-Refines}

abbrev quiet : Hits
quiet other = []

refuses_sixth : (check_and_record 71 160 (λ other. 110 ∷ 120 ∷ 130 ∷ 140 ∷ 150 ∷ [])).0 ≡ false
unfolding check_and_record
refuses_sixth = refl

check_and_record-Refines_example :
    ((check_and_record 71 100 quiet).0 ≡ (reference 71 100 quiet).0)
    × Refines 100 (check_and_record 71 100 quiet).1 (reference 71 100 quiet).1
check_and_record-Refines_example =
    check_and_record-Refines 90 100 71 quiet quiet (λ ip later h. refl) (omega arith)
