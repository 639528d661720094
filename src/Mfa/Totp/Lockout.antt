-- ===== src/Mfa/Totp/Lockout.antt =====
-- Runs of challenges: replays of a code, and guessing against the failure counter.
use lite_iam.Prelude.{
  ◌∙◌, ◌-◌, ap, ℕ, suc, Text, ◌+◌, ◌<◌, ◌≤◌, ◌≡◌, ◌≢◌, refl, true, false, Option, some, List, [],
  ◌∷◌, arith, length,
}
use lite_iam.Models.{User}
use lite_iam.Settings.{Settings}
use lite_iam.External.{External}
use lite_iam.Database.{Db, err, http_retry, ok, get_user}
use lite_iam.Mfa.Totp.{lockout_window_seconds}
use lite_iam.Mfa.Totp.Challenge.{
  challenge, accepted, failed_at, verify_totp_cooldown, verify_totp_ok, verify_totp_wrong,
}

-- A TOTP code that was accepted for an account whose secret decrypts is not accepted when it is
-- presented next, whenever that is.
pub verify_totp_replay :
    (x : External) (cfg : Settings) (code : Text) (ip ip' : Option Text) (now later : ℕ) (db : Db)
    (u : User) (enc secret : ℕ)
    → get_user u.id db ≡ some u
    → u.totp_secret_enc ≡ some enc
    → x.decrypt enc ≡ some secret
    → (challenge x cfg code ip now u.id db).0 ≡ ok true
    → (challenge x cfg code ip' later u.id (challenge x cfg code ip now u.id db).1).0 ≢ ok true
verify_totp_replay x cfg code ip ip' now later db u enc secret found enrolled decrypted first
      second =
    let stored =
      (verify_totp_ok x cfg code ip now db u enc secret found enrolled decrypted first).4 in
    (verify_totp_ok x cfg code ip' later (challenge x cfg code ip now u.id db).1 (accepted code u)
        enc secret stored enrolled decrypted second).2
      refl

-- A guess is a code and the time at which it is tried.
abbrev pub Guess : Type 0
Guess = Text × ℕ

abbrev pub AllWrong : External → ℕ → List Guess → Type 0
AllWrong x secret [] = Unit
AllWrong x secret ((code, now) ∷ gs) =
    (x.totp_verify secret code now ≡ false) × AllWrong x secret gs

module _ (x : External) (cfg : Settings) (ip_address : Option Text) where
  -- The tables after a run of challenges for one user.
  abbrev pub guess_all : List Guess → ℕ → Db → Db
  guess_all [] user_id db = db
  guess_all ((code, now) ∷ gs) user_id db =
      guess_all gs user_id (challenge x cfg code ip_address now user_id db).1

abbrev pub last_time : Option ℕ → List Guess → Option ℕ
last_time last [] = last
last_time last ((code, now) ∷ gs) = last_time (some now) gs

-- The row after a run of wrong guesses.
abbrev pub counted : List Guess → User → User
counted gs u = record u {
  totp_failure_count = u.totp_failure_count + length gs;
  totp_last_failure_at = last_time u.totp_last_failure_at gs;
}

counted-nil : (u : User) → counted [] u ≡ u
counted-nil u = ground arith

counted-cons :
    (code now : ℕ) (gs : List Guess) (u : User)
    → counted gs (failed_at now u) ≡ counted ((code, now) ∷ gs) u
counted-cons code now gs u = ground arith

module _ (x : External) (cfg : Settings) (ip : Option Text) (enc secret : ℕ)
    (decrypted : x.decrypt (suc enc) ≡ some secret) where
  -- Wrong guesses up to the limit are all counted.
  pub guess_all-counts :
      (gs : List Guess) (db : Db) (u : User)
      → get_user u.id db ≡ some u
      → u.is_totp_enabled ≡ true
      → u.totp_secret_enc ≡ some (suc enc)
      → AllWrong x secret gs
      → u.totp_failure_count + length gs ≤ cfg.totp_max_failures
      → get_user u.id (guess_all x cfg ip gs u.id db) ≡ some (counted gs u)
  guess_all-counts [] db u found enabled enrolled wrong room = rw (counted-nil u) found
  guess_all-counts ((code, now) ∷ gs) db u found enabled enrolled wrong room =
      guess_all-counts gs (challenge x cfg code ip now u.id db).1 (failed_at now u)
        (verify_totp_wrong x cfg code ip now db u enc secret found enabled enrolled decrypted
          wrong.0 (omega arith)).1
        enabled enrolled wrong.1 (omega arith)
      ∙ ap some (counted-cons code now gs u)

  -- On an account with TOTP, wrong codes are tried one after the other until the failure limit is
  -- reached. Then every code, the right one too, that comes before 60 seconds have passed since the
  -- last of them is refused with 429 and the seconds that are left, and nothing changes.
  -- Conditions: the failures counted so far and the guesses together make up the limit, and the
  -- secret decrypts.
  pub guess_all-locks :
      (gs : List Guess) (last_code last : Text) (code : Text) (now : ℕ) (db : Db) (u : User)
      → get_user u.id db ≡ some u
      → u.is_totp_enabled ≡ true
      → u.totp_secret_enc ≡ some (suc enc)
      → AllWrong x secret gs
      → x.totp_verify secret last_code last ≡ false
      → u.totp_failure_count + length gs + 1 ≡ cfg.totp_max_failures
      → now < last + lockout_window_seconds
      → let db' = (challenge x cfg last_code ip last u.id (guess_all x cfg ip gs u.id db)).1 in
        challenge x cfg code ip now u.id db'
        ≡ (err (http_retry 429 (lockout_window_seconds + last - now)), db')
  guess_all-locks gs last_code last code now db u found enabled enrolled wrong wrong_last full
        soon =
      let v = counted gs u in
      let before = guess_all-counts gs db u found enabled enrolled wrong (omega arith) in
      let db' = (challenge x cfg last_code ip last u.id (guess_all x cfg ip gs u.id db)).1 in
      let failed =
        verify_totp_wrong x cfg last_code ip last (guess_all x cfg ip gs u.id db) v enc secret
          before enabled enrolled decrypted wrong_last (omega arith) in
      verify_totp_cooldown x cfg code ip now db' (failed_at last v) last enc failed.1 enabled
        enrolled (omega arith) refl soon
