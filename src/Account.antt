-- ===== src/Account.antt =====
-- The other endpoints of app/api/v1/auth.py: the sign-out, the wrappers of the password reset, and
-- the trusted devices of a user. The text of a 422 is the reason that the manager gives, if any.
--
-- The reset itself is fastapi-users' and a parameter, with the exceptions that the wrappers name;
-- what it raises besides passes through. `destroy_token` has a session of its own, which holds its
-- row alone, and what it raises is swallowed. Rate limits, cookies and metrics are left out.
mod SignOut
mod Tests
use lite_iam.Prelude.{
  ℕ, Text, Bool, Option, none, some, List, ◌==◌, ltb, leb, map, truthy, not, select_where, order_by,
  if◌then◌else◌, truthy?,
}
use lite_iam.Models.{User, TrustedDevice}
use lite_iam.External.{External}
use lite_iam.Tokens.{Keys, destroyed_jti, read_token}
use lite_iam.Revocation.{revoke_token}
use lite_iam.Devices.{revoke_all_trusted_devices, revoke_device_by_id}
use lite_iam.Database.{
  ◌>>=◌, ◌>>◌, Handler, Result, ok, err, Error, gets, pure, raise, raise_if, http, commit, spawn,
}

-- `Depends(current_active_user)` of a bearer token: 401 for no user, or one that is not active.
abbrev current_active_user : Option User → Handler User
current_active_user none = raise (http 401 "Unauthorized")
current_active_user (some user) = do
  raise_if (not user.is_active) (http 401 "Unauthorized")
  pure user

-- `except Exception`: what went wrong is logged, and the handler goes on.
abbrev swallow : Handler (Unit {0}) → Handler (Unit {0})
swallow m s = (ok tt, (m s).1)

abbrev destroy_jti : Option (Text × ℕ) → Handler (Unit {0})
destroy_jti none = pure tt
destroy_jti (some (jti, exp)) = do revoke_token jti exp; commit

-- `destroy_token`
pub destroy_token : External → Keys → ℕ → Text → Handler (Unit {0})
unfolding revoke_token
destroy_token x keys now token = swallow (destroy_jti (destroyed_jti x keys now token))

abbrev destroy_bearer : External → Keys → ℕ → Option Text → Handler (Unit {0})
unfolding destroy_token
destroy_bearer x keys now none = pure tt
destroy_bearer x keys now (some token) =
    if truthy token then destroy_token x keys now token else pure tt

-- `logout`, of the stripped token after `Bearer ` where the header has one, in a worker with its
-- set of revoked ids.
pub logout : External → Keys → List Text → ℕ → Option Text → Handler (Unit {0})
unfolding destroy_bearer
logout x keys revoked_jtis now bearer = do
  reader ← gets (read_token x keys revoked_jtis now bearer)
  current_active_user reader
  destroy_bearer x keys now bearer

-- How `UserManager.reset_password` ends.
pub data Reset : Type 0 where
  done invalid_token user_not_exists user_inactive : Reset
  invalid_password : Option Text → Reset

-- The manager's `forgot_password` for an address, its exceptions swallowed.
pub forgot_password : (Text → Handler (Unit {0})) → Text → Handler (Unit {0})
forgot_password manager email s = (ok tt, (manager email s).1)

abbrev reset_reply : Reset → Handler (Unit {0})
reset_reply done = pure tt
reset_reply invalid_token = raise (http 400 "Invalid or expired reset token")
reset_reply user_not_exists = raise (http 400 "Invalid or expired reset token")
reset_reply user_inactive = raise (http 400 "Account is disabled")
reset_reply (invalid_password reason) = raise (http 422 "Password does not meet requirements")

pub reset_password_endpoint : (Text → Text → Handler Reset) → Text → Text → Handler (Unit {0})
reset_password_endpoint manager token password = do
  outcome ← manager token password
  reset_reply outcome

pub record DeviceInfo : Type 0 where
  pub id : ℕ
  pub created_at : ℕ
  pub expires_at : ℕ
  pub is_active : Bool

abbrev pub device_info : ℕ → TrustedDevice → DeviceInfo
device_info now d = record {
  id = d.id;
  created_at = d.created_at;
  expires_at = d.expires_at;
  is_active = ltb now d.expires_at;
}

-- `list_trusted_devices` and its endpoint, newest first.
pub get_trusted_devices : User → ℕ → Handler (List DeviceInfo)
unfolding order_by
get_trusted_devices user now = do
  rows ← gets (λ db. select_where (λ d. d.user_id == user.id) db.devices)
  pure (map (device_info now) (order_by (λ a b. leb b.created_at a.created_at) rows))

pub revoke_all_devices : User → Handler ℕ
revoke_all_devices user = revoke_all_trusted_devices user.id

pub revoke_device : User → ℕ → Handler (Unit {0})
revoke_device user device_id = do
  removed ← revoke_device_by_id device_id user.id
  raise_if (not removed) (http 404 "Trusted device not found")
