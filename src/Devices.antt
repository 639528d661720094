-- ===== src/Devices.antt =====
-- app/sessions/trusted_device.py: devices that skip the second factor for 30 days.
pub mod Trust
mod Tests
use lite_iam.Prelude.{
  ℕ, Text, ◌+◌, ◌*◌, Bool, not, ◌&&◌, List, [], ◌∷◌, ◌++◌, ltb, ◌==◌, is_some, find, select_where,
  delete_where, count_where,
}
use lite_iam.Models.{TrustedDevice}
use lite_iam.External.{External}
use lite_iam.Database.{Handler, pure, gets, modify, commit, ◌>>=◌, ◌>>◌}

abbrev pub device_ttl : ℕ
device_ttl = 30 * 86400

-- A device of a user with this cookie that has not expired.
abbrev pub is_match : External → ℕ → Text → ℕ → TrustedDevice → Bool
is_match x user_id cookie_value now d =
    (d.user_id == user_id) && (d.device_token_hash == x.sha256 cookie_value) && ltb now d.expires_at

unfoldable pub is_trusted_device : External → ℕ → Text → ℕ → Handler Bool
is_trusted_device x user_id cookie_value now =
    gets (λ db. is_some (find (is_match x user_id cookie_value now) db.devices))

-- `token` and `id` are random.
unfoldable pub create_trusted_device : External → ℕ → ℕ → Text → ℕ → ℕ → Handler Text
create_trusted_device x user_id tenant_id token id now = do
  modify λ db. record db {
    devices =
        db.devices
        ++ (record {
          id = id;
          user_id = user_id;
          tenant_id = tenant_id;
          device_token_hash = x.sha256 token;
          expires_at = now + device_ttl;
          created_at = now;
        })
          ∷ [];
  }
  commit
  pure token

pub revoke_all_trusted_devices : ℕ → Handler ℕ
revoke_all_trusted_devices user_id = do
  count ← gets (λ db. count_where (λ d. d.user_id == user_id) db.devices)
  modify λ db. record db { devices = delete_where (λ d. d.user_id == user_id) db.devices }
  commit
  pure count

pub revoke_device_by_id : ℕ → ℕ → Handler Bool
revoke_device_by_id device_id user_id = do
  count ← gets (λ db. count_where (λ d. (d.id == device_id) && (d.user_id == user_id)) db.devices)
  modify λ db. record db {
    devices = delete_where (λ d. (d.id == device_id) && (d.user_id == user_id)) db.devices;
  }
  commit
  pure (ltb 0 count)
