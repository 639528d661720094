-- ===== src/Passkey/Keys.antt =====
-- app/identity/passkey.py and app/api/v1/passkey.py: the passkeys of a user.
use lite_iam.Prelude.{
  ℕ, Text, Bool, true, not, ◌&&◌, Option, none, some, List, ◌==◌, leb, is_empty, if◌then◌else◌,
  truthy, select_where, update_where, map, order_by,
}
use lite_iam.Models.{User, PasskeyCredential}
use lite_iam.External.{External}
use lite_iam.Database.{◌>>=◌, ◌>>◌, Handler, gets, or_raise, raise_if, http, modify, pure, commit}
use lite_iam.Passkey.{security_key}

-- An item of the list, its name given in any case.
pub record PasskeyInfo : Type 0 where
  pub id : ℕ
  pub name : Text
  pub created_at : ℕ
  pub last_used_at : Option ℕ

abbrev name_of : Option Text → Text
name_of none = security_key
name_of (some name) = if truthy name then name else security_key

abbrev pub passkey_info : PasskeyCredential → PasskeyInfo
passkey_info p = record {
  id = p.id;
  name = name_of p.device_name;
  created_at = p.created_at;
  last_used_at = p.last_used_at;
}

abbrev pub is_listed : ℕ → PasskeyCredential → Bool
is_listed user_id p = (p.user_id == user_id) && not p.is_revoked

-- Newest first.
unfoldable pub list_credentials : ℕ → Handler (List PasskeyInfo)
unfolding order_by
list_credentials user_id = do
  rows ← gets (λ db. select_where (is_listed user_id) db.passkeys)
  pure (map passkey_info (order_by (λ a b. leb b.created_at a.created_at) rows))

abbrev pub is_own : ℕ → ℕ → PasskeyCredential → Bool
is_own id user_id p = (p.id == id) && (p.user_id == user_id)

-- `revoke_credential`, with the rows that the UPDATE returns.
unfoldable pub revoke_credential : ℕ → ℕ → Handler (Unit {0})
revoke_credential id user_id = do
  result ← gets (λ db. select_where (is_own id user_id) db.passkeys)
  modify λ db. record db {
    passkeys = update_where (is_own id user_id) (λ p. record p { is_revoked = true }) db.passkeys;
  }
  raise_if (is_empty result) (http 404 "Credential not found")
  commit

pub revoke_passkey_credential : External → User → Text → Handler (Unit {0})
unfolding revoke_credential
revoke_passkey_credential x user credential_id = do
  id ← or_raise (x.as_uuid credential_id) (http 400 "Invalid credential_id")
  revoke_credential id user.id
