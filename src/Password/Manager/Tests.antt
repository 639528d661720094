-- ===== src/Password/Manager/Tests.antt =====
-- Ada's password is changed to one with the hash 7, which begins with the character 7.
use lite_iam.Prelude.{
  Text, ◌≡◌, ◌≤◌, ◌≢◌, refl, Bool, true, false, none, some, [], ◌∷◌, ◌==◌, length, or_empty, arith,
}
use lite_iam.Models.{User}
use lite_iam.Settings.{Settings}
use lite_iam.Fixtures.{defaults, ada, with_user}
use lite_iam.Database.{get_user}
use lite_iam.Password.{Password, validate_password}
use lite_iam.Password.Manager.{Caller, check_hibp, entry, other_line, get_ip, verify_and_update}
use lite_iam.Password.Manager.History.{changes, changed_password_stays_refused}

abbrev remembers_five : Settings
remembers_five = record defaults { password_history_depth = 5 }

abbrev verifies : Text → Password → Bool
verifies hash [] = false
verifies hash (c ∷ password) = hash == c

abbrev no_breach : Password → Bool
no_breach password = false

-- The hash 7 is put under two later ones.
changed_password_stays_refused_example :
    (row : User) × (get_user 1
        (changes remembers_five false none 1 (7 ∷ 8 ∷ 9 ∷ []) (with_user ada))
      ≡ some row)
    × (length (or_empty row.password_history) ≤ 5)
    × (validate_password verifies no_breach remembers_five (7 ∷ []) (some row) ≢ none)
changed_password_stays_refused_example =
    changed_password_stays_refused remembers_five false none 1 verifies no_breach (7 ∷ []) ada 7
      (8 ∷ 9 ∷ []) (with_user ada) refl (refl, (refl, (refl, tt))) refl (omega arith)

abbrev proxied : Caller
proxied = record { host = some 71; forwarded = some 72; user_agent = none }

distrusts : get_ip false (some proxied) ≡ some 71
unfolding get_ip
distrusts = refl

breached : check_hibp 5 (some (200, entry 4 (some 9) ∷ other_line ∷ entry 5 (some 2) ∷ [])) ≡ true
unfolding check_hibp
breached = refl

unreachable : check_hibp 5 (some (503, entry 5 (some 2) ∷ [])) ≡ false
unfolding check_hibp
unreachable = refl

rehashes :
    verify_and_update (λ hash plain. hash == plain) (λ hash. true) (λ plain. plain) 8 8
    ≡ (true, some 8)
unfolding verify_and_update
rehashes = refl
