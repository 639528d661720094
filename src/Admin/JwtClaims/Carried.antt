-- ===== src/Admin/JwtClaims/Carried.antt =====
-- app/admin/jwt_claims.py with app/tokens/strategy.py: the claims that are written are in the tokens.
use lite_iam.Prelude.{
  ℕ, Text, ◌≡◌, refl, Bool, true, false, Option, some, [], ◌∷◌, ◌==◌, arith, ◌∙◌, lookup,
  Bool-cases, inl, ◌++◌, ap, eq_of_==, inr, ◌&&◌,
}
use lite_iam.Admin.JwtClaims.{
  set_jwt_claims, all_valid, or_empty, or_none, contains, User, reserved_claims, is_valid_write,
  is_valid_claim,
}
use lite_iam.External.{External}
use lite_iam.Tokens.{Claims, Keys, Stamp, TenantRecord, token_payload, strip_reserved}
use lite_iam.Settings.{Settings}
use lite_iam.Models.{Tenant}
use lite_iam.Database.{Db, get_tenant, get_session, ok}
use lite_iam.Database.Runs.{find-update_where}
use lite_iam.Tokens.Stages.{strip_reserved_lem}

claim_parts :
    (len : Text → ℕ) (k v : Text) (rest : Bool)
    → (is_valid_claim len (k, v) && rest) ≡ true
    → (contains reserved_claims k ≡ false) × (rest ≡ true)
claim_parts len k v rest valid = elim (Bool-cases (contains reserved_claims k)) [
  | inl taken ↦ absurd (ground arith)
  | inr free ↦ (free, ground arith)
]

-- A key of valid claims is no reserved name.
valid_key :
    (len : Text → ℕ) (claims : Claims) (k v : Text)
    → all_valid len claims ≡ true
    → lookup k claims ≡ some v
    → contains reserved_claims k ≡ false
valid_key len [] k v valid held = cc
valid_key len ((j, w) ∷ claims) k v valid held = elim (Bool-cases (k == j)) [
  | inl same ↦
      let free : contains reserved_claims j ≡ false =
        (claim_parts len j w (all_valid len claims) valid).0 in
      ap (contains reserved_claims) (eq_of_== k j same) ∙ free
  | inr other ↦
      valid_key len claims k v (claim_parts len j w (all_valid len claims) valid).1
        (rw other at held)
]

or_empty-or_none : (claims : Claims) → or_empty (or_none claims) ≡ claims
or_empty-or_none [] = refl
or_empty-or_none (c ∷ cs) = refl

-- Under a name that is not reserved a token says what the extra and the custom claims say.
free_claim :
    (x : External) (cfg : Settings) (keys : Keys) (stamp : Stamp) (tenant : TenantRecord)
    (lifetime : Option ℕ) (extra : Claims) (user : User) (k : Text)
    → contains reserved_claims k ≡ false
    → lookup k (token_payload x cfg keys stamp tenant lifetime extra user)
      ≡ lookup k (extra ++ tenant.custom)
free_claim x cfg keys stamp tenant lifetime extra user k free = ground arith

-- Valid claims that a superuser writes for a stored tenant are returned, and each of them is in
-- every access token that is then written with the tenant's record, under its key and with its
-- value, if the token has no extra claims.
pub written_claims_are_carried :
    (x : External) (cfg : Settings) (keys : Keys) (stamp : Stamp) (len : Text → ℕ)
    (admin user : User) (tenant_id : Text) (tid : ℕ) (t : Tenant) (claims : Claims)
    (lifetime : Option ℕ) (k v : Text) (db : Db)
    → admin.is_superuser ≡ true
    → x.as_uuid tenant_id ≡ some tid
    → get_tenant tid db ≡ some t
    → is_valid_write len claims ≡ true
    → lookup k claims ≡ some v
    → let (reply, db') = get_session (set_jwt_claims x len admin tenant_id claims) db in
      (reply ≡ ok claims)
      × ((u : Tenant) × (get_tenant tid db' ≡ some u)
          × (lookup k (
                token_payload x cfg keys stamp
                  (record {
                    custom = strip_reserved (or_empty u.custom_jwt_claims);
                    name = u.name;
                    slug = u.slug;
                  })
                  lifetime
                  []
                  user)
              ≡ some v))
unfolding set_jwt_claims
written_claims_are_carried x cfg keys stamp len admin user tenant_id tid t claims lifetime k v db
      super parsed found valid held =
    let keyed = valid_key len claims k v (ground arith) held in
    let stored =
      find-update_where (λ u. u.id == tid) (λ u. record u { custom_jwt_claims = or_none claims })
        db.tenants t (λ a. refl) found in
    rw (valid, super, parsed, found)
      (
        refl,
        (
          record t { custom_jwt_claims = or_none claims },
          stored,
          free_claim x cfg keys stamp _ lifetime [] user k keyed
              ∙ (ap (λ c. lookup k (strip_reserved c)) (or_empty-or_none claims)
                  ∙ (strip_reserved_lem claims k ∙ rw keyed held)),
        ),
      )
