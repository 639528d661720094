-- ===== src/Password/Manager/History.antt =====
-- app/identity/password.py: the history after changes of a password.
use lite_iam.Prelude.{
  Bool-cases, inl, inr, ◌≢◌, ℕ, zero, suc, Text, ◌+◌, ◌-◌, ◌≡◌, ◌≤◌, refl, ap, ◌∙◌, Bool, true,
  Option, none, some, List, [], ◌∷◌, ◌++◌, length, length-append, drop, truthy, or_empty, arith,
  ◌<◌, update_where, ◌==◌,
}
use lite_iam.Models.{User}
use lite_iam.Settings.{Settings}
use lite_iam.Database.{Db, get_session, get_user}
use lite_iam.Database.Runs.{get_user-update, get_user_id}
use lite_iam.Password.{Password, any, last, hashes, validate_password, push_password_history}
use lite_iam.Password.Manager.{Caller, on_after_update}

length-drop : {A : Type 0} (n : ℕ) (xs : List A) → length (drop n xs) ≡ length xs - n
length-drop zero xs = ground arith
length-drop (suc n) [] = ground arith
length-drop (suc n) (x ∷ xs) = length-drop n xs ∙ ground arith

length-last : (depth : ℕ) (xs : List Text) → length (last depth xs) ≤ depth
length-last depth xs = rw (length-drop (length xs - depth) xs) (omega arith)

append_assoc :
    (xs : List Text) (a : Text) (ys zs : List Text) → (xs ++ a ∷ ys) ++ zs ≡ xs ++ a ∷ (ys ++ zs)
append_assoc [] a ys zs = refl
append_assoc (x ∷ xs) a ys zs = ap (λ l. x ∷ l) (append_assoc xs a ys zs)

-- The end of a list that is longer than what is dropped stays.
drop-++ :
    {A : Type 0} (n : ℕ) (xs ys : List A) → n ≤ length xs → drop n (xs ++ ys) ≡ drop n xs ++ ys
drop-++ zero xs ys h = refl
drop-++ (suc n) [] ys h = absurd (ground arith)
drop-++ (suc n) (x ∷ xs) ys h = drop-++ n xs ys (ground arith)

any-++ : {A : Type 0} (p : A → Bool) (xs ys : List A) → any p ys ≡ true → any p (xs ++ ys) ≡ true
any-++ p [] ys h = h
any-++ p (x ∷ xs) ys h = ground (arith, any-++ p xs ys)

-- The last entries of a history hold the ones that were put last.
last-++ :
    (depth : ℕ) (xs ys : List Text)
    → length ys ≤ depth
    → last depth (xs ++ ys) ≡ drop (length xs + length ys - depth) xs ++ ys
last-++ depth xs ys few =
    ap (λ n. drop (n - depth) (xs ++ ys)) (length-append xs ys)
    ∙ drop-++ (length xs + length ys - depth) xs ys (omega arith)

abbrev pub AllTruthy : List Text → Type 0
AllTruthy [] = Unit
AllTruthy (h ∷ hs) = (truthy h ≡ true) × AllTruthy hs

module _ (cfg : Settings) (trust : Bool) (request : Option Caller) (user_id : ℕ) where
  abbrev with_hash : Text → User → User
  with_hash hash u = record u { hashed_password = hash }

  abbrev pub pushed : Text → User → List Text
  pushed hash u = last cfg.password_history_depth (or_empty u.password_history ++ hash ∷ [])

  -- The row of a user after a change of its password.
  abbrev renewed : Text → User → User
  renewed hash u = record u { hashed_password = hash; password_history = some (pushed hash u) }

  -- A change: fastapi-users stores the new hash in the row and calls `on_after_update` with it.
  abbrev pub change_row : Text → Db → Option User → Db
  change_row hash db none = db
  change_row hash db (some user) =
      (get_session (on_after_update trust cfg (with_hash hash user) true request)
        (record db { users = update_where (λ u. u.id == user_id) (with_hash hash) db.users })).1

  -- Changes to these hashes, one after the other, each to the row that the one before left.
  pub changes : List Text → Db → Db
  changes [] db = db
  changes (hash ∷ hashes) db = changes hashes (change_row hash db (get_user user_id db))

  change_stores :
      (hash : Text) (user : User) (db : Db)
      → get_user user_id db ≡ some user
      → truthy hash ≡ true
      → 0 < cfg.password_history_depth
      → get_user user_id (change_row hash db (get_user user_id db)) ≡ some (renewed hash user)
  unfolding on_after_update push_password_history
  change_stores hash user db found hashed deep =
      let own : user.id ≡ user_id = get_user_id user_id db user found in
      let stored = get_user-update (with_hash hash) user_id db.users user (λ a. refl) found in
      let again =
        get_user-update (λ u. record u { password_history = some (pushed hash user) }) user_id
          (update_where (λ u. u.id == user_id) (with_hash hash) db.users) (with_hash hash user)
          (λ a. refl) stored in
      rw (found, own, hashed) (ground (arith, again))

  -- A row whose history holds the hash, with at most so many hashes after it, and is not too long.
  abbrev Remembers : Text → ℕ → User → Type 0
  Remembers hash later row =
      (before : List Text) × (after : List Text) × (or_empty row.password_history
        ≡ before ++ hash ∷ after)
      × (length after ≤ later)
      × (length (or_empty row.password_history) ≤ cfg.password_history_depth)

  change-Remembers :
      (hash new_hash : Text) (later : ℕ) (row : User)
      → Remembers hash later row
      → later + 2 ≤ cfg.password_history_depth
      → Remembers hash (suc later) (renewed new_hash row)
  change-Remembers hash new_hash later row (before, after, history, few, short) deep =
      let whole : pushed new_hash row
          ≡ last cfg.password_history_depth (before ++ hash ∷ (after ++ new_hash ∷ [])) =
        ap (λ h. last cfg.password_history_depth (h ++ new_hash ∷ [])) history
        ∙ ap (last cfg.password_history_depth) (append_assoc before hash after (new_hash ∷ [])) in
      let longer = length-append after (new_hash ∷ []) in
      (
        _,
        after ++ new_hash ∷ [],
        whole
            ∙ last-++ cfg.password_history_depth before (hash ∷ (after ++ new_hash ∷ []))
                (omega arith),
        omega arith,
        length-last cfg.password_history_depth (or_empty row.password_history ++ new_hash ∷ []),
      )

  changes-Remembers :
      (hash : Text) (later : ℕ) (hashes : List Text) (user : User) (db : Db)
      → get_user user_id db ≡ some user
      → Remembers hash later user
      → AllTruthy hashes
      → later + length hashes + 1 ≤ cfg.password_history_depth
      → (row : User) × (get_user user_id (changes hashes db) ≡ some row)
        × (n : ℕ) × (n ≤ later + length hashes)
        × Remembers hash n row
  unfolding changes
  changes-Remembers hash later [] user db found remembered full deep =
      (user, found, later, omega arith, remembered)
  changes-Remembers hash later (h ∷ hs) user db found remembered full deep =
      let (row, stored, n, few, kept) =
        changes-Remembers hash (suc later) hs (renewed h user)
          (change_row h db (get_user user_id db))
          (change_stores h user db found full.0 (omega arith))
          (change-Remembers hash h later user remembered (omega arith)) full.1 (omega arith) in
      (row, stored, n, omega arith, kept)

  module _ (verifies : Text → Password → Bool) where
    -- The hashes that are compared hold one that is so near to the end of the history.
    still_compared :
        (hash : Text) (password : Password) (later : ℕ) (row : User)
        → verifies hash password ≡ true
        → Remembers hash later row
        → later + 2 ≤ cfg.password_history_depth
        → any (λ h. verifies h password) (last cfg.password_history_depth (hashes row)) ≡ true
    still_compared hash password later row same (before, after, history, few, short) deep =
        elim (Bool-cases (truthy row.hashed_password)) [
          | inr empty ↦ rw (empty, history) (compared after (omega arith))
          | inl full ↦
              let current = row.hashed_password ∷ [] in
              rw (full, history)
                (rw (append_assoc before hash after current)
                  (compared (after ++ current) (omega (arith, length-append after current))))
        ]
      where
        compared :
            (rest : List Text)
            → length rest + 1 ≤ cfg.password_history_depth
            → any
                (λ h. verifies h password)
                (last cfg.password_history_depth (before ++ hash ∷ rest))
              ≡ true
        compared rest few' =
            ap (any (λ h. verifies h password))
              (last-++ cfg.password_history_depth before (hash ∷ rest) (omega arith))
            ∙ any-++ (λ h. verifies h password) _ (hash ∷ rest) (rw same refl)

    -- After the password is changed to a hash, and then to any later ones, each stored and pushed
    -- in turn, the account is stored with a history of at most the configured depth, and a password
    -- that the hash verifies is refused, as long as the later changes are at least two fewer than
    -- the depth. Conditions: the account is stored, and the hashes are not empty.
    pub changed_password_stays_refused :
        (is_breached : Password → Bool) (password : Password) (user : User) (hash : Text)
        (later : List Text) (db : Db)
        → get_user user_id db ≡ some user
        → AllTruthy (hash ∷ later)
        → verifies hash password ≡ true
        → length later + 2 ≤ cfg.password_history_depth
        → (row : User) × (get_user user_id (changes (hash ∷ later) db) ≡ some row)
          × (length (or_empty row.password_history) ≤ cfg.password_history_depth)
          × (validate_password verifies is_breached cfg password (some row) ≢ none)
    unfolding validate_password changes
    changed_password_stays_refused is_breached password user hash later db found full same deep =
        let first : Remembers hash 0 (renewed hash user) = (
          _,
          [],
          last-++ cfg.password_history_depth (or_empty user.password_history) (hash ∷ [])
              (omega arith),
          omega arith,
          length-last cfg.password_history_depth (or_empty user.password_history ++ hash ∷ []),
        ) in
        let (row, stored, n, within, kept) =
          changes-Remembers hash 0 later (renewed hash user)
            (change_row hash db (get_user user_id db))
            (change_stores hash user db found full.0 (omega arith)) first full.1 (omega arith) in
        let compared = still_compared hash password n row same kept (omega arith) in
        let (before, after, history, few, short) = kept in
        (row, stored, short, λ accepted. absurd (ground arith))
