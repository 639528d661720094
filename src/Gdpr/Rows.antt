-- ===== src/Gdpr/Rows.antt =====
-- app/api/v1/gdpr.py: the rows that an erasure leaves, and the account that a token names.
use lite_iam.Prelude.{
  ℕ, Text, ◌≡◌, refl, true, false, none, some, List, [], ◌∷◌, ◌==◌, find, select_where,
  update_where, delete_where, arith, Option-cases, Bool-cases, inl, inr, truthy, lookup,
}
use lite_iam.Models.{User, TrustedDevice, PasskeyCredential}
use lite_iam.External.{External}
use lite_iam.Database.{Db, get_user}
use lite_iam.Gdpr.{anonymous, Bool}
use lite_iam.Literals
use lite_iam.Tokens.{Keys, Claims, read_token, decode_token, subject_of}
use lite_iam.Devices.{is_match}
use lite_iam.Passkey.Keys.{is_listed}

module _ (user_id : ℕ) (anon_email : Text) where
  -- Every row of the account that is found afterwards is inactive.
  pub found_inactive :
      (q : User → Bool) (users : List User) (u : User)
      → find q (update_where (λ v. v.id == user_id) (anonymous anon_email) users) ≡ some u
      → u.id ≡ user_id
      → u.is_active ≡ false
  found_inactive q [] u found same = absurd (ground arith)
  found_inactive q (v ∷ users) u found same = elim (Bool-cases (v.id == user_id)) [
    | inl own ↦ elim (Bool-cases (q (anonymous anon_email v))) [
      | inl taken ↦ ground arith
      | inr passed_by ↦ found_inactive q users u (ground arith) same
    ]
    | inr other ↦ elim (Bool-cases (q v)) [
      | inl taken ↦ absurd (ground arith)
      | inr passed_by ↦ found_inactive q users u (ground arith) same
    ]
  ]

  pub no_device :
      (x : External) (cookie : Text) (now : ℕ) (devices : List TrustedDevice)
      → find (is_match x user_id cookie now) (delete_where (λ d. d.user_id == user_id) devices)
        ≡ none
  no_device x cookie now [] = refl
  no_device x cookie now (d ∷ devices) = ground (arith, no_device x cookie now devices)

  pub no_passkey :
      (passkeys : List PasskeyCredential)
      → select_where
          (is_listed user_id)
          (update_where (λ p. p.user_id == user_id) (λ p. record p { is_revoked = true }) passkeys)
        ≡ []
  no_passkey [] = refl
  no_passkey (p ∷ passkeys) = ground (arith, no_passkey passkeys)

subject_found :
    (x : External) (payload : Claims) (u : User) (db : Db)
    → subject_of x payload db ≡ some u
    → (id : ℕ) × (get_user id db ≡ some u)
subject_found x payload u db read = elim (Option-cases (lookup Literals.sub payload)) [
  | inl missing ↦ absurd (ground arith)
  | inr (subject, named) ↦ elim (Bool-cases (truthy subject)) [
    | inr empty ↦ absurd (ground arith)
    | inl full ↦ elim (Option-cases (x.as_uuid subject)) [
      | inl malformed ↦ absurd (ground arith)
      | inr (id, parsed) ↦ (id, ground arith)
    ]
  ]
]

-- The account that an access token is read as stands under its id.
pub read_found :
    (x : External) (keys : Keys) (revoked_jtis : List Text) (now : ℕ) (token : Text) (u : User)
    (db : Db)
    → read_token x keys revoked_jtis now (some token) db ≡ some u
    → (id : ℕ) × (get_user id db ≡ some u)
unfolding read_token
read_found x keys revoked_jtis now token u db read = elim (Bool-cases (truthy token)) [
  | inr empty ↦ absurd (ground arith)
  | inl full ↦ elim (Option-cases (decode_token x keys true now token)) [
    | inl refused ↦ absurd (ground arith)
    | inr (payload, decoded) ↦ subject_found x payload u db (ground arith)
  ]
]
