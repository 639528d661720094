-- ===== src/Mfa/Totp/Backup.antt =====
-- app/mfa/totp.py: the backup codes of an account.
use lite_iam.Prelude.{
  or_empty, is_empty, ◌==◌, update_where, ℕ, Text, ◌+◌, ◌≡◌, ◌≢◌, refl, true, false, Option, some,
  List, [], ◌∷◌, map, arith, length, contains, remove,
}
use lite_iam.Models.{User}
use lite_iam.External.{External}
use lite_iam.Database.{Db, ok, get_user, get_session}
use lite_iam.Database.Runs.{get_user-update}
use lite_iam.Mfa.Totp.{verify_backup_code, verify_and_activate_totp, none_if_empty}

-- No text stands twice.
abbrev pub Distinct : List Text → Type 0
Distinct [] = Unit
Distinct (c ∷ cs) = (contains cs c ≡ false) × Distinct cs

contains-remove : (cs : List Text) (c : Text) → Distinct cs → contains (remove cs c) c ≡ false
contains-remove [] c d = refl
contains-remove (y ∷ cs) c d = ground (arith, contains-remove cs c d.1)

length-remove :
    (cs : List Text) (c : Text) → contains cs c ≡ true → length (remove cs c) + 1 ≡ length cs
length-remove [] c h = cc
length-remove (y ∷ cs) c h = ground (arith, length-remove cs c)

contains-map :
    (f : Text → Text) (cs : List Text) (c : Text)
    → contains cs c ≡ true
    → contains (map f cs) (f c) ≡ true
contains-map f [] c h = h
contains-map f (y ∷ cs) c h = ground (arith, contains-map f cs c)

or_empty-none_if_empty : (cs : List Text) → or_empty (none_if_empty cs) ≡ cs
or_empty-none_if_empty [] = refl
or_empty-none_if_empty (c ∷ cs) = refl

abbrev pub backup_codes : User → List Text
backup_codes u = or_empty u.totp_backup_codes

-- The row after a code with this hash has been redeemed.
abbrev pub redeemed : Text → User → User
redeemed hashed u = record u { totp_backup_codes = none_if_empty (remove (backup_codes u) hashed) }

-- The update that the redemption by `u` makes.
abbrev redeemed_like : User → Text → User → User
redeemed_like u hashed v = record v {
  totp_backup_codes = none_if_empty (remove (backup_codes u) hashed);
}

abbrev pub activated : List Text → User → User
activated hashes u = record u {
  is_totp_enabled = true;
  totp_failure_count = 0;
  totp_backup_codes = some hashes;
}

module _ (x : External) (ip_address : Option Text) where
  verify_backup_code_conditions :
      (code : Text) (db : Db) (u : User)
      → get_user u.id db ≡ some u
      → (get_session (verify_backup_code x u.id code ip_address) db).0 ≡ ok true
      → (u.is_totp_enabled ≡ true)
        × (is_empty (backup_codes u) ≡ false)
        × (contains (backup_codes u) (x.sha256 (x.strip_upper code)) ≡ true)
  unfolding verify_backup_code
  verify_backup_code_conditions code db u found done = ground arith

  verify_backup_code_users :
      (code : Text) (db : Db) (u : User)
      → get_user u.id db ≡ some u
      → u.is_totp_enabled ≡ true
      → is_empty (backup_codes u) ≡ false
      → contains (backup_codes u) (x.sha256 (x.strip_upper code)) ≡ true
      → (get_session (verify_backup_code x u.id code ip_address) db).1.users
        ≡ update_where
            (λ v. v.id == u.id)
            (redeemed_like u (x.sha256 (x.strip_upper code)))
            db.users
  unfolding verify_backup_code
  verify_backup_code_users code db u found enabled some_left held =
      rw (found, enabled, some_left, held)

  pub verify_backup_code_ok :
      (code : Text) (db : Db) (u : User)
      → get_user u.id db ≡ some u
      → (get_session (verify_backup_code x u.id code ip_address) db).0 ≡ ok true
      → (contains (backup_codes u) (x.sha256 (x.strip_upper code)) ≡ true)
        × (get_user u.id (get_session (verify_backup_code x u.id code ip_address) db).1
            ≡ some (redeemed (x.sha256 (x.strip_upper code)) u))
  verify_backup_code_ok code db u found done =
      let hashed = x.sha256 (x.strip_upper code) in
      let (enabled, some_left, held) = verify_backup_code_conditions code db u found done in
      (
        held,
        rw (verify_backup_code_users code db u found enabled some_left held)
            (get_user-update (redeemed_like u hashed) u.id db.users u (λ a. refl) found),
      )

  -- If a backup code is redeemed, and the stored hashes are distinct, then exactly its hash is
  -- taken from the account's row, one hash fewer is stored, and the same code does not succeed when
  -- it is presented next.
  pub verify_backup_code_once :
      (code : Text) (db : Db) (u : User)
      → get_user u.id db ≡ some u
      → Distinct (backup_codes u)
      → (get_session (verify_backup_code x u.id code ip_address) db).0 ≡ ok true
      → let db' = (get_session (verify_backup_code x u.id code ip_address) db).1 in
        let hashed = x.sha256 (x.strip_upper code) in
        (get_user u.id db' ≡ some (redeemed hashed u))
        × (length (backup_codes (redeemed hashed u)) + 1 ≡ length (backup_codes u))
        × ((get_session (verify_backup_code x u.id code ip_address) db').0 ≢ ok true)
  verify_backup_code_once code db u found distinct done =
      let hashed = x.sha256 (x.strip_upper code) in
      let left = or_empty-none_if_empty (remove (backup_codes u) hashed) in
      let db' = (get_session (verify_backup_code x u.id code ip_address) db).1 in
      let (held, stored) = verify_backup_code_ok code db u found done in
      (
        stored,
        rw left (length-remove (backup_codes u) hashed held),
        λ again. ground (
          arith,
          (verify_backup_code_ok code db' (redeemed hashed u) stored again).0,
          left,
          contains-remove (backup_codes u) hashed distinct,
        ),
      )

  -- After TOTP was activated, each of the backup codes that the reply shows can be redeemed at
  -- once. Condition on the code: stripping and upper-casing it changes nothing.
  pub activated_codes_redeem :
      (code c : Text) (now : ℕ) (codes : List Text) (db : Db) (u : User)
      → get_user u.id db ≡ some u
      → (get_session (verify_and_activate_totp x u.id code ip_address now codes) db).0 ≡ ok codes
      → contains codes c ≡ true
      → x.strip_upper c ≡ c
      → let db' = (get_session (verify_and_activate_totp x u.id code ip_address now codes) db).1 in
        (get_session (verify_backup_code x u.id c ip_address) db').0 ≡ ok true
  unfolding verify_and_activate_totp verify_backup_code
  activated_codes_redeem code c now codes db u found done shown upper = ground (
    arith,
    get_user-update (activated (map x.sha256 codes)) u.id db.users u (λ a. refl),
    contains-map x.sha256 codes c shown,
  )
