-- ===== src/Passkey/Unique.antt =====
-- app/identity/passkey.py: the credentials over any run of the operations.
use lite_iam.Prelude.{
  ℕ, Text, ◌≡◌, ◌≤◌, refl, true, none, some, [], ◌∷◌, ◌++◌, find, arith, Option, Bool-cases,
  Option-cases, inl, inr, count_where, count-update, count-snoc, count_none, List, ◌==◌,
  if◌then◌else◌, bind?,
}
use lite_iam.Models.{User, PasskeyCredential}
use lite_iam.Database.{Db, err, http, get_session, Error, open_session, Session, internal, or_raise}
use lite_iam.Passkey.{
  Webauthn, begin_registration, complete_registration, begin_authentication,
  complete_authentication, has_credential_id, is_usable, new_passkey, passkey_authenticate_complete,
  is_for, registration, lookup_id, ltb, authentication, is_empty, optional_id, select_where, truthy,
}
use lite_iam.Passkey.Keys.{revoke_credential, is_own}
use lite_iam.External.{External}

-- A request to one of the endpoints, with the tables before it and after it.
pub data Step (w : Webauthn) (db : Db) : Db → Type 0 where
  begins_registration :
      (user : User) (challenge : Text) (id now : ℕ)
      → Step w db (get_session (begin_registration w user challenge id now) db).1
  completes_registration :
      (user : User) (credential_json : Text) (device_name : Option Text) (id now : ℕ)
      → Step w db
          (get_session (complete_registration w user credential_json device_name id now) db).1
  begins_authentication :
      (user_id : Option ℕ) (challenge : Text) (id now : ℕ)
      → Step w db (get_session (begin_authentication w user_id challenge id now) db).1
  completes_authentication :
      (credential_json : Text) (user_id : Option ℕ) (now : ℕ)
      → Step w db (get_session (complete_authentication w credential_json user_id now) db).1
  revokes : (id user_id : ℕ) → Step w db (get_session (revoke_credential id user_id) db).1

pub data Steps (w : Webauthn) (db : Db) : Db → Type 0 where
  here : Steps w db db
  next : {db' db'' : Db} → Steps w db db' → Step w db' db'' → Steps w db db''

-- No two passkeys have one credential.
abbrev pub AreUnique : Db → Type 0
AreUnique db = (c : Text) → count_where (has_credential_id c) db.passkeys ≤ 1

added :
    (passkeys : List PasskeyCredential) (p : PasskeyCredential) (c : Text)
    → find (has_credential_id p.credential_id) passkeys ≡ none
    → count_where (has_credential_id c) passkeys ≤ 1
    → count_where (has_credential_id c) (passkeys ++ p ∷ []) ≤ 1
added passkeys p c fresh unique = elim (Bool-cases (p.credential_id == c)) [
  | inl same ↦
      let at : c ≡ p.credential_id = ground arith in
      rw
        (
          at,
          count-snoc (has_credential_id p.credential_id) passkeys p,
          count_none (has_credential_id p.credential_id) passkeys fresh,
        )
        (ground arith)
  | inr other ↦ rw (count-snoc (has_credential_id c) passkeys p, other) (ground arith)
]

-- No query finds a credential that is usable.
none_usable :
    (credential_id : Text) (passkeys : List PasskeyCredential)
    → find (is_usable credential_id) passkeys ≡ none
none_usable credential_id [] = refl
none_usable credential_id (p ∷ passkeys) = ground (arith, none_usable credential_id passkeys)

-- The id of a request, `none` where the text is none.
abbrev optional : External → Option Text → Option (Option ℕ)
optional x none = some none
optional x (some t) = if truthy t then bind? (x.as_uuid t) (λ id. some (some id)) else some none

optional_id-optional :
    (x : External) (user_id : Option Text)
    → optional_id x user_id ≡ or_raise (optional x user_id) internal
optional_id-optional x none = refl
optional_id-optional x (some t) = elim (Bool-cases (truthy t)) [
  | inr empty ↦ rw empty refl
  | inl given ↦ elim (Option-cases (x.as_uuid t)) [
    | inl malformed ↦ rw (given, malformed) refl
    | inr (id, parsed) ↦ rw (given, parsed) refl
  ]
]

module _ (w : Webauthn) where
  registration-AreUnique :
      (user : User) (credential_json : Text) (device_name : Option Text) (id now : ℕ) (db : Db)
      → AreUnique db
      → AreUnique
          (get_session (complete_registration w user credential_json device_name id now) db).1
  unfolding complete_registration
  registration-AreUnique user credential_json device_name id now db unique c =
      elim (Option-cases (find (is_for user.id registration) db.challenges)) [
        | inl absent ↦ rw absent (unique c)
        | inr (row, found) ↦ elim (Bool-cases (ltb row.expires_at now)) [
          | inl late ↦ rw (found, late) (unique c)
          | inr early ↦ elim (Option-cases (w.registration_credential credential_json)) [
            | inl malformed ↦ rw (found, early, malformed) (unique c)
            | inr (credential, parses) ↦
                elim (Option-cases (w.verify_registration credential row.challenge)) [
                  | inl invalid ↦ rw (found, early, parses, invalid) (unique c)
                  | inr (verification, verifies) ↦
                      elim (Option-cases
                        (find (has_credential_id verification.credential_id) db.passkeys)) [
                          | inl fresh ↦
                              rw (found, early, parses, verifies, fresh)
                                (added db.passkeys
                                  (new_passkey id user.id device_name verification now) c fresh
                                  (unique c))
                          | inr (old, taken) ↦ rw (found, early, parses, verifies, taken) (unique c)
                        ]
                ]
          ]
        ]
      ]

  -- An assertion is refused, and commits nothing.
  refused :
      (credential_json : Text) (user_id : Option ℕ) (now : ℕ) (s : Session)
      → (e : Error) × ((complete_authentication w credential_json user_id now s).0 ≡ err e)
        × ((complete_authentication w credential_json user_id now s).1.saved ≡ s.saved)
  unfolding complete_authentication
  refused credential_json user_id now s =
      elim (Option-cases (find (is_for (lookup_id user_id) authentication) s.live.challenges)) [
        | inl absent ↦
            (http 400 "No pending WebAuthn challenge found", rw absent refl, rw absent refl)
        | inr (row, found) ↦ elim (Bool-cases (ltb row.expires_at now)) [
          | inl late ↦ (
            http 400 "WebAuthn challenge has expired",
            rw (found, late) refl,
            rw (found, late) refl,
          )
          | inr early ↦ elim (Option-cases (w.authentication_credential credential_json)) [
            | inl malformed ↦
                (internal, rw (found, early, malformed) refl, rw (found, early, malformed) refl)
            | inr (credential, parses) ↦
                let unknown = none_usable (w.raw_id credential) s.live.passkeys in
                (
                  http 400 "Passkey credential not found or revoked",
                  rw (found, early, parses, unknown) refl,
                  rw (found, early, parses, unknown) refl,
                )
          ]
        ]
      ]

  Step-AreUnique : {db db' : Db} → Step w db db' → AreUnique db → AreUnique db'
  unfolding begin_registration begin_authentication revoke_credential
  Step-AreUnique (begins_registration user challenge id now) unique = unique
  Step-AreUnique (completes_registration user credential_json device_name id now) unique =
      registration-AreUnique user credential_json device_name id now _ unique
  Step-AreUnique (begins_authentication none challenge id now) unique = unique
  Step-AreUnique (begins_authentication (some user_id) challenge id now) unique = unique
  Step-AreUnique {db} (completes_authentication credential_json user_id now) unique =
      let (e, failed, kept) = refused credential_json user_id now (open_session db) in
      rw (failed, kept) unique
  Step-AreUnique {db} (revokes id user_id) unique =
      elim (Bool-cases (is_empty (select_where (is_own id user_id) db.passkeys))) [
        | inl none_own ↦ rw none_own unique
        | inr own ↦ rw own (λ c.
            rw
              (count-update (has_credential_id c) (is_own id user_id)
                (λ p. record p { is_revoked = true }) db.passkeys (λ a. refl))
              (unique c))
      ]

  -- If no credential id stands in two rows, this is so after any sequence of beginnings and
  -- completions of registrations and authentications and of revocations of passkeys, by any users,
  -- whether they succeed or fail.
  pub Steps-AreUnique : {db db' : Db} → AreUnique db → Steps w db db' → AreUnique db'
  Steps-AreUnique unique here = unique
  Steps-AreUnique unique (next steps step) = Step-AreUnique step (Steps-AreUnique unique steps)

  -- How many rows have a credential id.
  abbrev pub rows_of : Text → Db → ℕ
  rows_of c db = count_where (has_credential_id c) db.passkeys

  -- No passkey signs anybody in: whatever the authenticator sends and whatever the tables hold, the
  -- completion of an authentication raises, and changes nothing.
  pub authentication_refused :
      (x : External) (write_token : User → Text) (credential_json : Text) (user_id : Option Text)
      (now : ℕ) (db : Db)
      → (e : Error) × (get_session
            (passkey_authenticate_complete x w write_token credential_json user_id now)
            db
          ≡ (err e, db))
  unfolding passkey_authenticate_complete
  authentication_refused x write_token credential_json user_id now db =
      elim (Option-cases (optional x user_id)) [
        | inl malformed ↦ (internal, rw (optional_id-optional x user_id, malformed) refl)
        | inr (id, parsed) ↦
            let (e, failed, kept) = refused credential_json id now (open_session db) in
            (e, rw (optional_id-optional x user_id, parsed, failed, kept) refl)
      ]
