-- ===== src/Gdpr/Tests.antt =====
-- The account 1 is erased, and the account 2 of the same tenant enters with its token afterwards.
use lite_iam.Prelude.{ℕ, ◌+◌, ◌≡◌, ◌≢◌, refl, true, false, some, [], ◌∷◌, ◌==◌, find, arith}
use lite_iam.Fixtures.{plain, defaults, ada, with_user}
use lite_iam.Database.{Db, get_user}
use lite_iam.Models.{User, PersonalAccessToken}
use lite_iam.Pat.{dispatch_pat, passed}
use lite_iam.Tokens.{Keys}
use lite_iam.Gdpr.{erase_my_account}
use lite_iam.Gdpr.Erasure.{erased, erasure_shuts, by_pat}
use lite_iam.Login.{Services}

abbrev bob : User
bob = record ada { id = 2; email = 12; is_totp_enabled = false }

abbrev keys : Keys
keys = record { kid = 1; private_pem = 8; public_pems = [] }

-- The token of the account 2, with the hash 61.
abbrev pat : PersonalAccessToken
pat = record {
  id = 5;
  user_id = 2;
  tenant_id = 3;
  name = 62;
  token_hash = 61;
  scopes = [];
  expires_at = some 500;
  is_active = true;
}

abbrev tables : Db
tables = record (with_user ada) { users = ada ∷ bob ∷ []; pats = pat ∷ [] }

bob_enters : dispatch_pat plain 100 61 (erased 90 ada tables) ≡ passed bob [] 5
unfolding erase_my_account dispatch_pat
bob_enters = refl

abbrev by_address : Services
by_address = record {
  get_by_email = λ email db. find (λ u. u.email == email) db.users;
  write_token = λ u. 500 + u.id;
  write_mfa_pending_token = λ u. 600 + u.id;
}

by_address-keyed :
    (email : ℕ) (u : User)
    → by_address.get_by_email email (erased 90 ada tables) ≡ some u
    → get_user u.id (erased 90 ada tables) ≡ some u
unfolding erase_my_account
by_address-keyed email u found = ground arith

erasure_shuts_example : ◌≢◌ {A = ℕ} 2 1
erasure_shuts_example =
    erasure_shuts 90 ada tables plain defaults keys by_address by_address-keyed
      (by_pat 100 61 bob [] 5 bob_enters)
