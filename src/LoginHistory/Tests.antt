-- ===== src/LoginHistory/Tests.antt =====
-- The eleventh login of Ada.
use lite_iam.Prelude.{
  ℕ, ◌≡◌, ◌+◌, none, zero, suc, List, [], ◌∷◌, count_where, if◌then◌else◌, ltb, arith,
}
use lite_iam.Fixtures.{ada, with_user}
use lite_iam.Database.{Db}
use lite_iam.Models.{LoginSession}
use lite_iam.LoginHistory.{is_active_of, new_session}
use lite_iam.LoginHistory.Cap.{recorded, record_login_caps}

abbrev logins : ℕ → List LoginSession
logins zero = []
logins (suc n) = new_session ada none none (100 + n) n ∷ logins n

abbrev tables : Db
tables = record (with_user ada) { login_sessions = logins 10 }

record_login_caps_example :
    count_where (is_active_of 1) (recorded ada none none 200 50 tables).login_sessions ≡ (
      if ltb 9 (count_where (is_active_of 1) (logins 10))
      then 10
      else suc (count_where (is_active_of 1) (logins 10)))
record_login_caps_example = record_login_caps ada none none 200 50 tables (λ i. ground arith)
