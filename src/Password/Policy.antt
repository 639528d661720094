-- ===== src/Password/Policy.antt =====
-- What an accepted password is, and what the history of an account holds.
use lite_iam.Prelude.{
  ◌⊎◌, inl, inr, Bool-cases, ℕ, suc, zero, Text, ◌-◌, ◌≤◌, ◌≡◌, refl, Bool, true, false, not, ◌||◌,
  none, some, List, [], ◌∷◌, ◌++◌, arith, ltb, truthy, length, drop, or_empty,
}
use lite_iam.Models.{User}
use lite_iam.Settings.{Settings}
use lite_iam.Database.{Db, get_session, get_user}
use lite_iam.Database.Runs.{get_user-update}
use lite_iam.Password.{
  Password, any, is_upper, is_lower, is_digit, is_special, last, hashes, validate_password,
  push_password_history,
}

module _ (verifies : Text → Password → Bool) (is_breached : Password → Bool) (cfg : Settings) where
  -- A password that is accepted for an account has at least eight characters, one of each of the
  -- four classes, and is in no breach that was found; and unless the history's depth is zero, it
  -- verifies against none of the last hashes of the account, up to the depth.
  pub validate_password_sound :
      (password : Password) (user : User)
      → validate_password verifies is_breached cfg password (some user) ≡ none
      → (8 ≤ length password)
        × (any is_upper password ≡ true)
        × (any is_lower password ≡ true)
        × (any is_digit password ≡ true)
        × (any is_special password ≡ true)
        × (is_breached password ≡ false)
        × ((0 ≡ cfg.password_history_depth)
            ⊎ (any (λ h. verifies h password) (last cfg.password_history_depth (hashes user))
                ≡ false))
  unfolding validate_password
  validate_password_sound password user accepted = (
    ground arith,
    ground arith,
    ground arith,
    ground arith,
    ground arith,
    ground arith,
    ground arith,
  )

length-drop : (n : ℕ) (xs : List Text) → length (drop n xs) ≡ length xs - n
length-drop zero xs = omega arith
length-drop (suc n) [] = omega arith
length-drop (suc n) (x ∷ xs) = omega (arith, length-drop n xs)

-- The row after a push.
abbrev pub pushed : Settings → User → User → User
pushed cfg user u = record u {
  password_history = some (
      last cfg.password_history_depth
        (or_empty user.password_history ++ user.hashed_password ∷ []));
}

length-last : (depth : ℕ) (xs : List Text) → length (last depth xs) ≤ depth
length-last depth xs = rw length-drop (omega arith)

-- The history never holds more hashes than its depth.
pub history_bounded :
    (cfg : Settings) (user : User) (db : Db)
    → get_user user.id db ≡ some user
    → length (or_empty user.password_history) ≤ cfg.password_history_depth
    → (u : User) × (get_user user.id (get_session (push_password_history cfg user) db).1 ≡ some u)
      × (length (or_empty u.password_history) ≤ cfg.password_history_depth)
unfolding push_password_history
history_bounded cfg user db found short =
    elim (Bool-cases
      (not (ltb 0 cfg.password_history_depth) || not (truthy user.hashed_password))) [
        | inl off ↦ rw off (user, found, short)
        | inr on ↦ rw on (
          pushed cfg user user,
          get_user-update (pushed cfg user) user.id db.users user (λ a. refl) found,
          length-last cfg.password_history_depth
              (or_empty user.password_history ++ user.hashed_password ∷ []),
        )
      ]

module _ (p : Text → Bool) where
  any-drop : (n : ℕ) (xs : List Text) → any p xs ≡ false → any p (drop n xs) ≡ false
  any-drop zero xs h = h
  any-drop (suc n) [] h = refl
  any-drop (suc n) (x ∷ xs) h = any-drop n xs (ground arith)

  any-snoc :
      (xs : List Text) (a : Text) → any p xs ≡ false → p a ≡ false → any p (xs ++ a ∷ []) ≡ false
  any-snoc [] a h e = ground arith
  any-snoc (x ∷ xs) a h e = ground (arith, any-snoc xs a)

  -- No window of a history with one hash, followed by that hash, has another one.
  any-repeated :
      (depth : ℕ) (a : Text)
      → p a ≡ false
      → any p (last depth (last depth (a ∷ []) ++ a ∷ [])) ≡ false
  any-repeated depth a e =
      any-drop _ (last depth (a ∷ []) ++ a ∷ [])
        (any-snoc (last depth (a ∷ [])) a (any-drop (1 - depth) (a ∷ []) (ground arith)) e)

-- A user without a history changes the password. The row after the change accepts the password from
-- before it, if that passes the other rules and does not verify against the new hash.
pub first_password_reusable :
    (verifies : Text → Password → Bool) (is_breached : Password → Bool) (cfg : Settings)
    (old : Password) (hash : ℕ) (user : User) (db : Db)
    → get_user user.id db ≡ some (record user { hashed_password = suc hash })
    → user.password_history ≡ none
    → validate_password verifies is_breached cfg old none ≡ none
    → verifies (suc hash) old ≡ false
    → (u : User) × (get_user user.id
          (get_session
            (push_password_history cfg (record user { hashed_password = suc hash }))
            db).1
        ≡ some u)
      × (validate_password verifies is_breached cfg old (some u) ≡ none)
unfolding push_password_history validate_password
first_password_reusable verifies is_breached cfg old hash user db found first fine other =
    let changed = record user { hashed_password = suc hash } in
    elim (Bool-cases (ltb 0 cfg.password_history_depth)) [
      | inr off ↦ rw off (changed, found, ground arith)
      | inl on ↦ rw on (
        pushed cfg changed changed,
        get_user-update (pushed cfg changed) user.id db.users changed (λ a. refl) found,
        rw (first, any-repeated (λ h. verifies h old) cfg.password_history_depth (suc hash) other)
            (ground arith),
      )
    ]
