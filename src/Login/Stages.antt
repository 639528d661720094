-- ===== src/Login/Stages.antt =====
-- `login` of app/api/v1/auth.py stage by stage: what becomes of the audit rows.
use lite_iam.Prelude.{◌≡◌, refl, arith, List, not}
use lite_iam.Models.{User, Tenant, AuditLog}
use lite_iam.Settings.{Settings}
use lite_iam.External.{External}
use lite_iam.Database.{
  Db, Error, Result, ok, err, settle, Session, get_session, open_session, raise_if, http,
}
use lite_iam.Database.Hoare.{Ends, Ended, Ends-bind}
use lite_iam.Login.{
  LoginRequest, LoginResponse, Services, resolve, gate, check_lockout, check_password,
  record_success, step_up, login, explicit_tenant, resolved, refuse,
}

module _ (x : External) (cfg : Settings) (services : Services) (request : LoginRequest)
    (rows : List AuditLog) where
  -- The audit rows are as before, in the open transaction too.
  abbrev IsQuiet : Session → Type 0
  IsQuiet s = (s.live.audit ≡ rows) × (s.saved.audit ≡ rows)

  -- The committed audit rows are as before.
  abbrev IsSaved : Session → Type 0
  IsSaved s = s.saved.audit ≡ rows

  resolve-IsQuiet : Ends IsQuiet (λ a s. IsQuiet s) IsSaved (resolve x cfg services request)
  unfolding resolve explicit_tenant resolved refuse
  resolve-IsQuiet = record { at = λ s q. ground arith }

  gate-IsQuiet :
      (u : User) (t : Tenant)
      → Ends IsQuiet (λ a s. IsQuiet s) IsSaved (gate x cfg services request u t)
  unfolding gate
  gate-IsQuiet u t = record { at = λ s q. ground arith }

  check_lockout-IsQuiet :
      (u : User) → Ends IsQuiet (λ a s. IsQuiet s) IsSaved (check_lockout x cfg services request u)
  unfolding check_lockout
  check_lockout-IsQuiet u = record { at = λ s q. ground arith }

  check_password-IsQuiet :
      (u : User) → Ends IsQuiet (λ a s. IsQuiet s) IsSaved (check_password x cfg services request u)
  unfolding check_password
  check_password-IsQuiet u = record { at = λ s q. ground arith }

  record_success-IsQuiet :
      (u : User) → Ends IsQuiet (λ a s. IsSaved s) IsSaved (record_success x cfg services request u)
  unfolding record_success
  record_success-IsQuiet u = record { at = λ s q. ground arith }

  step_up-IsQuiet :
      (u : User) → Ends IsSaved (λ a s. IsSaved s) IsSaved (step_up x cfg services request u)
  unfolding step_up
  step_up-IsQuiet u = record { at = λ s q. ground arith }

  within_limit-IsQuiet :
      Ends IsQuiet
        (λ a s. IsQuiet s)
        IsSaved
        (raise_if (not request.within_limit) (http 429 "Rate limit exceeded"))
  within_limit-IsQuiet = record { at = λ s q. ground arith }

  login-Ends : Ends IsQuiet (λ a s. IsSaved s) IsSaved (login x cfg services request)
  unfolding login
  login-Ends =
      Ends-bind (raise_if (not request.within_limit) (http 429 "Rate limit exceeded")) (λ _. _)
        within_limit-IsQuiet
        λ _.
          Ends-bind (resolve x cfg services request) (λ (u, t). _) resolve-IsQuiet
            λ (user, tenant).
              Ends-bind (gate x cfg services request user tenant) (λ _. _)
                (gate-IsQuiet user tenant)
                λ _.
                  Ends-bind (check_lockout x cfg services request user) (λ u. _)
                    (check_lockout-IsQuiet user)
                    λ user.
                      Ends-bind (check_password x cfg services request user) (λ _. _)
                        (check_password-IsQuiet user)
                        λ _.
                          Ends-bind (record_success x cfg services request user) (λ u. _)
                            (record_success-IsQuiet user) λ user. step_up-IsQuiet user

settle_err :
    (rows : List AuditLog) (r : Result LoginResponse) (s : Session) (e : Error)
    → Ended (λ a s. s.saved.audit ≡ rows) (λ s. s.saved.audit ≡ rows) (r, s)
    → r ≡ err e
    → (settle r s).audit ≡ rows
settle_err rows (ok a) s e h raised = ground arith
settle_err rows (err f) s e h raised = h

-- A login that fails, for whatever reason, leaves the audit rows as they were: the failed-login
-- event that the handler emits before it raises is not kept.
pub login_err :
    (x : External) (cfg : Settings) (services : Services) (request : LoginRequest) (db : Db)
    (e : Error)
    → (get_session (login x cfg services request) db).0 ≡ err e
    → (get_session (login x cfg services request) db).1.audit ≡ db.audit
login_err x cfg services request db e raised =
    let (r, s) = login x cfg services request (open_session db) in
    settle_err db.audit r s e
      ((login-Ends x cfg services request db.audit).at (open_session db) (refl, refl)) raised
