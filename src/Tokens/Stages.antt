-- ===== src/Tokens/Stages.antt =====
-- app/tokens/strategy.py: the claims of a token, and what each reader makes of it.
use lite_iam.Prelude.{
  ap, ◌∙◌, eq_of_==, Bool-cases, ◌⊎◌, inl, inr, ◌==◌, if◌then◌else◌, ℕ, suc, Text, ◌≡◌, refl, true,
  false, Option, none, some, List, [], ◌∷◌, arith, contains, lookup,
}
use lite_iam.Models.{User}
use lite_iam.Settings.{Settings}
use lite_iam.External.{External}
use lite_iam.Database.{Db, get_user}
use lite_iam.Tokens.{
  Claims, Keys, Stamp, TenantRecord, reserved_claims, strip_reserved, token_payload, write_token,
  pending_payload, write_mfa_pending_token, decode_token, read_token, read_mfa_pending_token,
  destroyed_jti,
}

-- What an access token says under a reserved claim is what it says without any extra claims and
-- without the tenant's custom claims, whether or not these were stripped of reserved names.
pub reserved_claims_hold :
    (x : External) (cfg : Settings) (keys : Keys) (stamp : Stamp) (user : User)
    (tenant : TenantRecord) (lifetime : Option ℕ) (extra : Claims) (k : Text)
    → contains reserved_claims k ≡ true
    → lookup k (token_payload x cfg keys stamp tenant lifetime extra user)
      ≡ lookup k (token_payload x cfg keys stamp (record tenant { custom = [] }) lifetime [] user)
reserved_claims_hold x cfg keys stamp user tenant lifetime extra k reserved = ground arith

-- What is loaded for a tenant has no reserved name.
pub strip_reserved_lem :
    (raw : Claims) (k : Text)
    → lookup k (strip_reserved raw) ≡ (if contains reserved_claims k then none else lookup k raw)
unfolding strip_reserved
strip_reserved_lem [] k = ground arith
strip_reserved_lem ((j, v) ∷ raw) k = elim (Bool-cases (k == j)) [
  | inr other ↦ elim (Bool-cases (contains reserved_claims j)) [
    | inl taken ↦ rw (taken, other) (strip_reserved_lem raw k)
    | inr free ↦ rw (free, other) (strip_reserved_lem raw k)
  ]
  | inl same ↦
      let here = ap (contains reserved_claims) (eq_of_== k j same) in
      elim (Bool-cases (contains reserved_claims j)) [
        | inl taken ↦ rw (taken, here ∙ taken) (rw (here ∙ taken) at (strip_reserved_lem raw k))
        | inr free ↦ rw (free, here ∙ free) (rw same refl)
      ]
]

module _ (x : External) (cfg : Settings) (keys : Keys) (stamp : Stamp) (now : ℕ) (user : User) where
  -- A pending token that the service wrote and PyJWT accepts is no access token: reading it as one
  -- gives no user, and reading it as a pending token gives its payload.
  pub read-pending :
      (revoked_jtis : List Text) (token : Text) (db : Db)
      → write_mfa_pending_token x cfg keys stamp user ≡ token
      → decode_token x keys true now token ≡ some (pending_payload x cfg keys stamp user)
      → (read_token x keys revoked_jtis now (some token) db ≡ none)
        × (read_mfa_pending_token x keys now token ≡ some (pending_payload x cfg keys stamp user))
  unfolding read_token read_mfa_pending_token
  read-pending revoked_jtis token db written accepted = ground arith

  -- An access token that the service wrote and PyJWT accepts is read back as the row of its user,
  -- unless its id is in the worker's set of revoked ids, and is never taken for a pending token.
  -- Conditions: the token is not empty, and the user's id survives printing and parsing.
  pub read-write :
      (revoked_jtis : List Text) (tenant : TenantRecord) (lifetime : Option ℕ) (extra : Claims)
      (t sub : ℕ) (db : Db)
      → write_token x cfg keys stamp tenant lifetime extra user ≡ suc t
      → decode_token x keys true now (suc t)
        ≡ some (token_payload x cfg keys stamp tenant lifetime extra user)
      → x.str_uuid user.id ≡ suc sub
      → x.as_uuid (suc sub) ≡ some user.id
      → (contains revoked_jtis stamp.jti ≡ false
          → read_token x keys revoked_jtis now (some (suc t)) db ≡ get_user user.id db)
        × (read_mfa_pending_token x keys now (suc t) ≡ none)
  unfolding read_token read_mfa_pending_token
  read-write revoked_jtis tenant lifetime extra t sub db written accepted shown parsed =
      (λ fresh. ground arith, ground arith)

-- A token whose id was blacklisted when it was destroyed, and stands in the worker's set, is read
-- as no user at any time. Condition: PyJWT decodes the token to the same claims with the expiry
-- check as without it, or refuses it.
pub read-destroyed :
    (x : External) (keys : Keys) (now later : ℕ) (token jti exp : Text) (revoked_jtis : List Text)
    (db : Db)
    → (decode_token x keys true later token ≡ none)
      ⊎ (decode_token x keys true later token ≡ decode_token x keys false now token)
    → destroyed_jti x keys now token ≡ some (jti, exp)
    → contains revoked_jtis jti ≡ true
    → read_token x keys revoked_jtis later (some token) db ≡ none
unfolding read_token destroyed_jti
read-destroyed x keys now later token jti exp revoked_jtis db agrees destroyed listed = ground arith
