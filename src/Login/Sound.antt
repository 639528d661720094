-- ===== src/Login/Sound.antt =====
-- What a login that ends with a full access token has checked.
use lite_iam.Prelude.{
  inl, inr, ltb, Option-cases, Bool-cases, ℕ, Text, ◌≡◌, refl, ◌≤◌, true, none, some, arith,
  is_some, find, ◌∙◌, sym, ap, ◌⊎◌,
}
use lite_iam.Models.{User, Tenant}
use lite_iam.Settings.{Settings}
use lite_iam.External.{External}
use lite_iam.Database.{
  Db, Session, get_user, get_tenant, ok, open_session, ◌>>=◌, ◌>>◌, raise_if, http,
}
use lite_iam.Database.Hoare.{Ends, Ends-bind, Ends-given, Ends-weaken, Ended-ok}
use lite_iam.Devices.{is_match}
use lite_iam.IpPolicy.{check_ip_policy}
use lite_iam.Login.{
  LoginRequest, LoginResponse, complete, Services, resolve, gate, check_lockout, check_password,
  record_success, step_up, login, logged_in, active_tenant, explicit_tenant, resolved, refuse,
  mfa_pending, not,
}
use lite_iam.Database.Runs.{get_user-update}

module _ (x : External) (cfg : Settings) (services : Services) (request : LoginRequest)
    (db : Db) where
  -- The row `v` is the account's, and devices and tenants are those of the start.
  abbrev Unmoved : Session → Type 0
  Unmoved s = (s.live.devices ≡ db.devices) × (s.live.tenants ≡ db.tenants)

  abbrev At : User → Session → Type 0
  At v s = (get_user v.id s.live ≡ some v) × Unmoved s

  -- The same account, its counters aside.
  abbrev pub Same : User → User → Type 0
  Same u v =
      (v.id ≡ u.id)
      × (v.tenant_id ≡ u.tenant_id)
      × (v.is_totp_enabled ≡ u.is_totp_enabled)
      × (v.hashed_password ≡ u.hashed_password)

  -- Any end of a raise will do.
  abbrev Raised : Session → Type 0
  Raised s = Unit {0}

  -- No lockout of the account is running.
  abbrev pub IsUnlocked : User → Type 0
  IsUnlocked u = (until : ℕ) → u.locked_until ≡ some until → until ≤ request.now

  abbrev pub IsTrusted : User → Type 0
  IsTrusted u =
      (cookie : Text) × (request.device_cookie ≡ some cookie)
      × (is_some (find (is_match x u.id cookie request.now) db.devices) ≡ true)

  abbrev pub HasSecondFactor : User → Type 0
  HasSecondFactor u =
      (u.is_totp_enabled ≡ true → IsTrusted u)
      × ((t : Tenant)
          → get_tenant u.tenant_id db ≡ some t
          → t.require_mfa ≡ true
          → u.is_totp_enabled ≡ true)

  abbrev unlocked : User → User
  unlocked u = record u { failed_login_count = 0; locked_until = none }

  check_lockout_lem :
      (u : User)
      → Ends
          (At u)
          (λ v s. At v s × (Same u v × IsUnlocked u))
          Raised
          (check_lockout x cfg services request u)
  unfolding check_lockout
  check_lockout_lem u = record {
    at = λ s (a, m). elim (Option-cases u.locked_until) [
      | inl free ↦ rw free (ground arith)
      | inr (until, locked) ↦ elim (Bool-cases (ltb request.now until)) [
        | inl early ↦ ground arith
        | inr late ↦
            rw (locked, late, get_user-update unlocked u.id s.live.users u (λ v. refl) a)
              (
                (get_user-update unlocked u.id s.live.users u (λ v. refl) a, m),
                ((refl, refl, refl, refl), λ until' same. ground arith),
              )
      ]
    ];
  }

  check_password_lem :
      (v : User)
      → Ends
          (At v)
          (λ _ s. At v s × (x.argon2_verify v.hashed_password request.password ≡ true))
          Raised
          (check_password x cfg services request v)
  unfolding check_password
  check_password_lem v = record { at = λ s a. ground arith }

  record_success_lem :
      (v : User)
      → Ends (At v) (λ w s. Unmoved s × Same v w) Raised (record_success x cfg services request v)
  unfolding record_success
  record_success_lem v = record {
    at = λ s (a, m).
        rw (get_user-update (logged_in x cfg services request v) v.id s.live.users v (λ u. refl) a)
          (ground arith);
  }

  -- The two replies that a login has for an account: with a full token, or with one that is good
  -- for the step-up alone.
  abbrev pub full_reply : User → LoginResponse
  full_reply w = record {
    access_token = services.write_token w;
    auth_stage = complete;
    user_id = w.id;
  }

  abbrev pub pending_reply : User → LoginResponse
  pending_reply w = record {
    access_token = services.write_mfa_pending_token w;
    auth_stage = mfa_pending;
    user_id = w.id;
  }

  step_up_lem :
      (w : User)
      → Ends Unmoved
          (λ r s.
            (r ≡ full_reply w × HasSecondFactor w)
            ⊎ (r ≡ pending_reply w × (w.is_totp_enabled ≡ true)))
          Raised
          (step_up x cfg services request w)
  unfolding step_up
  step_up_lem w = record { at = λ s a. ground arith }

  -- What the stages before the lockout found: the account, and its active tenant.
  abbrev Found : User × Tenant → Session → Type 0
  Found (u, t) s =
      (services.get_by_email request.email db ≡ some u)
      × (active_tenant x cfg services request (some u.tenant_id) db ≡ some t)
      × (s.live ≡ db)

  resolve_lem : Ends (λ s. s.live ≡ db) Found Raised (resolve x cfg services request)
  unfolding resolve explicit_tenant resolved refuse
  resolve_lem = record { at = λ s e. rw e (ground arith) }

  abbrev pub PassesGate : User → Tenant → Type 0
  PassesGate u t =
      (u.is_active ≡ true)
      × ((check_ip_policy x request.ip_address t).0 ≡ true)
      × (cfg.require_email_verification ≡ true → u.is_verified ≡ true)

  gate_lem :
      (u : User) (t : Tenant)
      → Ends
          (Found (u, t))
          (λ _ s. Found (u, t) s × PassesGate u t)
          Raised
          (gate x cfg services request u t)
  unfolding gate
  gate_lem u t = record { at = λ s f. ground arith }

  -- The account's facts hold of the row read last, since the stages between keep them.
  second_factor : (u v w : User) → Same u v → Same v w → HasSecondFactor w → HasSecondFactor u
  second_factor u v w (i, t, m, p) (i', t', m', p') (device, policy) = (
    λ on. rw⁻¹ i (rw⁻¹ i' (device (m' ∙ m ∙ on))),
    λ tenant found demands.
        sym (m' ∙ m) ∙ policy tenant (ap (λ n. get_tenant n db) (t' ∙ t) ∙ found) demands,
  )

  -- The reply is for the account as its row was read last, and with a full token only if the
  -- second factor was there.
  abbrev pub IsAnswered : User → LoginResponse → Type 0
  IsAnswered u r =
      (w : User) × Same u w
      × ((r ≡ full_reply w × HasSecondFactor u)
          ⊎ (r ≡ pending_reply w × (u.is_totp_enabled ≡ true)))

  answered :
      (u v w : User) (r : LoginResponse)
      → Same u v
      → Same v w
      → (r ≡ full_reply w × HasSecondFactor w) ⊎ (r ≡ pending_reply w × (w.is_totp_enabled ≡ true))
      → IsAnswered u r
  answered u v w r (i, t, m, p) (i', t', m', p') (inl (full, factor)) = (
    w,
    (i' ∙ i, t' ∙ t, m' ∙ m, p' ∙ p),
    inl (full, second_factor u v w (i, t, m, p) (i', t', m', p') factor),
  )
  answered u v w r (i, t, m, p) (i', t', m', p') (inr (pending, on)) =
      (w, (i' ∙ i, t' ∙ t, m' ∙ m, p' ∙ p), inr (pending, sym (m' ∙ m) ∙ on))

  whose :
      (w : User) (r : LoginResponse)
      → (r ≡ full_reply w × HasSecondFactor w) ⊎ (r ≡ pending_reply w × (w.is_totp_enabled ≡ true))
      → r.user_id ≡ w.id
  whose w r (inl (full, factor)) = ap (λ (a : LoginResponse). a.user_id) full
  whose w r (inr (pending, on)) = ap (λ (a : LoginResponse). a.user_id) pending

  -- The checks from the lockout on.
  abbrev IsCleared : User → LoginResponse → Type 0
  IsCleared u r =
      IsUnlocked u
      × (x.argon2_verify u.hashed_password request.password ≡ true)
      × (r.user_id ≡ u.id)
      × IsAnswered u r

  after_gate :
      (u : User)
      → Ends
          (At u)
          (λ r s. IsCleared u r)
          Raised
          (check_lockout x cfg services request u >>= λ user.
            check_password x cfg services request user
            >> (record_success x cfg services request user >>= λ user.
                step_up x cfg services request user))
  after_gate u =
      Ends-bind (check_lockout x cfg services request u) (λ v. _) (check_lockout_lem u)
        λ v.
          Ends-given _ (λ s (a, facts). (facts, a))
            λ (same, free).
              Ends-bind (check_password x cfg services request v) (λ _. _) (check_password_lem v)
                λ _.
                  Ends-given _ (λ s (a, right). (right, a))
                    λ right.
                      Ends-bind (record_success x cfg services request v) (λ w. _)
                        (record_success_lem v)
                        λ w.
                          Ends-given _ (λ s (m, again). (again, m))
                            λ again.
                              Ends-weaken _
                                (λ r s reply. (
                                  free,
                                  rw⁻¹ same.3 right,
                                  whose w r reply ∙ again.0 ∙ same.0,
                                  answered u v w r same again reply,
                                ))
                                (step_up_lem w)

  -- All that a login has checked of the account and its tenant when it returns.
  abbrev pub Cleared : LoginResponse → Type 0
  Cleared r =
      (u : User) × (t : Tenant) × (services.get_by_email request.email db ≡ some u)
      × (active_tenant x cfg services request (some u.tenant_id) db ≡ some t)
      × PassesGate u t
      × IsCleared u r

  -- The lookup by address returns the row that stands under its id.
  abbrev pub IsKeyed : Type 0
  IsKeyed = (u : User) → services.get_by_email request.email db ≡ some u → get_user u.id db ≡ some u

  within_limit_lem :
      Ends
        (λ s. s.live ≡ db)
        (λ _ s. s.live ≡ db)
        Raised
        (raise_if (not request.within_limit) (http 429 "Rate limit exceeded"))
  within_limit_lem = record { at = λ s e. ground arith }

  login-Ends :
      IsKeyed → Ends (λ s. s.live ≡ db) (λ r s. Cleared r) Raised (login x cfg services request)
  unfolding login
  login-Ends keyed =
      Ends-bind (raise_if (not request.within_limit) (http 429 "Rate limit exceeded")) (λ _. _)
        within_limit_lem
        λ _.
          Ends-bind (resolve x cfg services request) (λ (u, t). _) resolve_lem
            λ (user, tenant).
              Ends-bind (gate x cfg services request user tenant) (λ _. _) (gate_lem user tenant)
                λ _.
                  Ends-given _
                    (λ s ((found, active, start), passed). (
                      (found, active, passed),
                      (ground (arith, keyed user found), (ground arith, ground arith)),
                    ))
                    λ (found, active, passed).
                      Ends-weaken _ (λ r s cleared. (user, tenant, found, active, passed, cleared))
                        (after_gate user)

-- A login that returns has found an account by the address, with an active tenant. The account is
-- active, its address is verified where that is required, and the tenant's IP policy lets the
-- client in; no lockout was running; the password verified against the stored hash; and the
-- response is for this account. The reply is one of two, of the account's row. Either it has the
-- full token, and then an account with TOTP was on a trusted device that has not expired, and an
-- account whose tenant demands a second factor has TOTP; or it has no full token, only the pending
-- one, and the account has TOTP. Condition: the lookup by address returns the row that stands under
-- its id.
pub login_sound :
    (x : External) (cfg : Settings) (services : Services) (request : LoginRequest) (db : Db)
    (r : LoginResponse)
    → IsKeyed x cfg services request db
    → (login x cfg services request (open_session db)).0 ≡ ok r
    → (u : User) × (t : Tenant) × (services.get_by_email request.email db ≡ some u)
      × (active_tenant x cfg services request (some u.tenant_id) db ≡ some t)
      × PassesGate x cfg services request db u t
      × (IsUnlocked x cfg services request db u
          × (x.argon2_verify u.hashed_password request.password ≡ true)
          × (r.user_id ≡ u.id)
          × IsAnswered x cfg services request db u r)
login_sound x cfg services request db r keyed e =
    let (reply, s) = login x cfg services request (open_session db) in
    Ended-ok (Cleared x cfg services request db) _ reply s r
      ((login-Ends x cfg services request db keyed).at (open_session db) refl) e
