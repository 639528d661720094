-- ===== src/Login/Tests.antt =====
-- Logins of an account with the password 7.
use lite_iam.Prelude.{
  ℕ, ◌+◌, ◌-◌, ◌≡◌, refl, true, false, none, some, [], arith, ◌==◌, find, ◌∷◌, ◌⊎◌,
}
use lite_iam.Models.{User, Tenant}
use lite_iam.Database.{ok, err, http, http_retry, get_session, open_session, Db}
use lite_iam.Fixtures.{plain, defaults, ada, acme, with_user}
use lite_iam.Login.{
  LoginRequest, Services, complete, explicit_tenant, resolved, refuse, resolve, gate, check_lockout,
  check_password, record_success, step_up, login, lockout_seconds, active_tenant, LoginResponse,
}
use lite_iam.Login.Sound.{
  login_sound, PassesGate, IsUnlocked, IsTrusted, IsAnswered, Same, pending_reply,
}
use lite_iam.Login.Policy.{with_policy, policy_binds_login}
use lite_iam.Login.Lockout.{fifth_failure_locks}
use lite_iam.Admin.Users.{set_tenant_mfa_policy}

abbrev lookup : Services
lookup = record {
  get_by_email = λ email db. find (λ u. u.email == email) db.users;
  write_token = λ u. 500 + u.id;
  write_mfa_pending_token = λ u. 600 + u.id;
}

abbrev from_home : ℕ → ℕ → LoginRequest
from_home password now = record {
  email = 11;
  password = password;
  tenant_id = none;
  ip_address = some 71;
  device_cookie = none;
  now = now;
  within_limit = true;
}

abbrev bob : User
bob = record ada { is_totp_enabled = false; last_login_ip = some 70; failed_login_count = 4 }

returns :
    (login plain defaults lookup (from_home 7 100) (open_session (with_user bob))).0
    ≡ ok (record { access_token = 501; auth_stage = complete; user_id = 1 })
unfolding login resolve gate check_lockout check_password record_success step_up
returns = refl

login_sound_example :
    (u : User) × (t : Tenant) × (lookup.get_by_email 11 (with_user bob) ≡ some u)
    × (active_tenant plain defaults lookup (from_home 7 100) (some u.tenant_id) (with_user bob)
        ≡ some t)
    × PassesGate plain defaults lookup (from_home 7 100) (with_user bob) u t
    × (IsUnlocked plain defaults lookup (from_home 7 100) (with_user bob) u
        × (plain.argon2_verify u.hashed_password 7 ≡ true)
        × (1 ≡ u.id)
        × IsAnswered plain defaults lookup
            (from_home 7 100)
            (with_user bob)
            u
            (record { access_token = 501; auth_stage = complete; user_id = 1 }))
login_sound_example =
    login_sound plain defaults lookup (from_home 7 100) (with_user bob)
      (record { access_token = 501; auth_stage = complete; user_id = 1 }) (λ u found. ground arith)
      returns

fails :
    (get_session (login plain defaults lookup (from_home 8 100)) (with_user bob)).0
    ≡ err (http 400 "Invalid email or password")
unfolding login resolve explicit_tenant resolved refuse gate check_lockout check_password
fails = refl

fifth_failure_locks_example :
    let db' = (get_session (login plain defaults lookup (from_home 8 100)) (with_user bob)).1 in
    get_session (login plain defaults lookup (from_home 7 500)) db'
    ≡ (err (http_retry 423 (100 + lockout_seconds - 500)), db')
unfolding login resolve explicit_tenant resolved refuse gate check_lockout check_password
fifth_failure_locks_example =
    fifth_failure_locks plain defaults lookup (from_home 8 100) (from_home 7 500) (with_user bob)
      bob acme (refl, refl, refl, refl, (refl, refl, λ e. refl)) refl refl (omega arith) refl refl
      refl refl refl (omega arith)

-- Ada logs in from the device 81, after a superuser has demanded a second factor.
abbrev chief : User
chief = record ada { id = 9; is_superuser = true }

abbrev with_device : Db
with_device = record (with_user ada) {
  devices =
      (record {
        id = 82;
        user_id = 1;
        tenant_id = 3;
        device_token_hash = 81;
        expires_at = 500;
        created_at = 50;
      })
      ∷ [];
}

abbrev from_device : LoginRequest
from_device = record (from_home 7 100) { device_cookie = some 81 }

abbrev entered : LoginResponse
entered = record { access_token = 501; auth_stage = complete; user_id = 1 }

enters :
    (login plain defaults lookup from_device (open_session (with_policy chief true with_device))).0
    ≡ ok entered
unfolding set_tenant_mfa_policy login resolve gate check_lockout check_password record_success
    step_up
enters = refl

policy_binds_login_example :
    (u : User) × (lookup.get_by_email 11 (with_policy chief true with_device) ≡ some u)
    × (u.tenant_id ≡ 3
        → (u.is_totp_enabled ≡ true)
          × (IsTrusted plain defaults lookup from_device (with_policy chief true with_device) u
              ⊎ ((w : User) × Same plain defaults lookup from_device
                    (with_policy chief true with_device)
                    u
                    w
                  × (entered
                      ≡ pending_reply plain defaults lookup from_device
                          (with_policy chief true with_device)
                          w))))
unfolding set_tenant_mfa_policy
policy_binds_login_example =
    policy_binds_login plain defaults lookup from_device chief acme with_device entered refl refl
      (λ u found. ground arith) enters
