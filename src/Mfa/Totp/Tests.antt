-- ===== src/Mfa/Totp/Tests.antt =====
-- The second factor on an account with the secret 42.
use lite_iam.Prelude.{
  ◌+◌, ◌-◌, ◌≡◌, ◌≢◌, refl, true, false, none, some, List, [], ◌∷◌, arith, length,
}
use lite_iam.Models.{User}
use lite_iam.Database.{ok, err, http_retry, get_session, get_user}
use lite_iam.Fixtures.{plain, defaults, ada, with_user}
use lite_iam.Mfa.Totp.{
  verify_totp, check_cooldown, accept_code, reject_code, verify_backup_code,
  verify_and_activate_totp,
}
use lite_iam.Mfa.Totp.Challenge.{challenge}
use lite_iam.Mfa.Totp.Lockout.{Guess, guess_all, verify_totp_replay, guess_all-locks}
use lite_iam.Mfa.Totp.Backup.{backup_codes, redeemed, verify_backup_code_once}

accepts_right_code : (challenge plain defaults 42 none 100 1 (with_user ada)).0 ≡ ok true
unfolding verify_totp check_cooldown accept_code reject_code
accepts_right_code = refl

verify_totp_replay_example :
    (challenge plain defaults 42 none 130 1
      (challenge plain defaults 42 none 100 1 (with_user ada)).1).0
    ≢ ok true
verify_totp_replay_example =
    verify_totp_replay plain defaults 42 none none 100 130 (with_user ada) ada 42 42 refl refl refl
      accepts_right_code

abbrev four_guesses : List Guess
four_guesses = (1, 100) ∷ (2, 101) ∷ (3, 102) ∷ (4, 103) ∷ []

guess_all-locks_example :
    let db' =
      (challenge plain defaults 5 none 104 1
        (guess_all plain defaults none four_guesses 1 (with_user ada))).1 in
    challenge plain defaults 42 none 120 1 db' ≡ (err (http_retry 429 (60 + 104 - 120)), db')
guess_all-locks_example =
    guess_all-locks plain defaults none 41 42 refl four_guesses 5 104 42 120 (with_user ada) ada
      refl refl refl (refl, (refl, (refl, (refl, tt)))) refl refl (omega arith)

redeems_code : (get_session (verify_backup_code plain 1 902 none) (with_user ada)).0 ≡ ok true
unfolding verify_backup_code
redeems_code = refl

verify_backup_code_once_example :
    let db' = (get_session (verify_backup_code plain 1 902 none) (with_user ada)).1 in
    (get_user 1 db' ≡ some (redeemed 902 ada))
    × (length (backup_codes (redeemed 902 ada)) + 1 ≡ length (backup_codes ada))
    × ((get_session (verify_backup_code plain 1 902 none) db').0 ≢ ok true)
verify_backup_code_once_example =
    verify_backup_code_once plain none 902 (with_user ada) ada refl (refl, (refl, tt)) redeems_code

abbrev enrolling : User
enrolling = record ada { is_totp_enabled = false; totp_backup_codes = none }

activates :
    (get_session
      (verify_and_activate_totp plain 1 42 none 100 (5 ∷ 6 ∷ []))
      (with_user enrolling)).0
    ≡ ok (5 ∷ 6 ∷ [])
unfolding verify_and_activate_totp
activates = refl
