-- ===== src/LoginHistory/Clear.antt =====
-- app/api/v1/login_history.py: what a revocation leaves to list.
use lite_iam.Prelude.{
  ℕ, Text, ◌≡◌, ◌≢◌, refl, Option, some, List, [], ◌∷◌, ◌==◌, find, select_where, update_where,
  count_where, arith,
}
use lite_iam.Models.{User, LoginSession}
use lite_iam.Database.{Db, ok, get_session}
use lite_iam.LoginHistory.{
  revoke_login_event, revoke_all_login_events, list_login_events, is_active_of, is_event_of, ended,
}

none_active :
    (user_id : ℕ) (rows : List LoginSession)
    → select_where (is_active_of user_id) (update_where (is_active_of user_id) ended rows) ≡ []
none_active user_id [] = refl
none_active user_id (r ∷ rows) = ground (arith, none_active user_id rows)

others_active :
    (user_id other : ℕ) (rows : List LoginSession)
    → other ≢ user_id
    → select_where (is_active_of other) (update_where (is_active_of user_id) ended rows)
      ≡ select_where (is_active_of other) rows
others_active user_id other [] apart = refl
others_active user_id other (r ∷ rows) apart = ground (arith, others_active user_id other rows)

one_less :
    (user_id event_id : ℕ) (rows : List LoginSession)
    → count_where
        (λ s. s.id == event_id)
        (select_where (is_active_of user_id) (update_where (λ s. s.id == event_id) ended rows))
      ≡ 0
one_less user_id event_id [] = refl
one_less user_id event_id (r ∷ rows) = ground (arith, one_less user_id event_id rows)

-- After a global sign-out the user lists no login, and another user the logins that it listed.
pub revoke_all_clears :
    (user other : User) (ip_address ip user_agent : Option Text) (db : Db)
    → other.id ≢ user.id
    → let db' = (get_session (revoke_all_login_events user ip_address) db).1 in
      (get_session (list_login_events user ip user_agent) db' ≡ (ok [], db'))
      × ((get_session (list_login_events other ip user_agent) db').0
          ≡ (get_session (list_login_events other ip user_agent) db).0)
unfolding revoke_all_login_events list_login_events
revoke_all_clears user other ip_address ip user_agent db apart = (
  rw (none_active user.id db.login_sessions) refl,
  rw (others_active user.id other.id db.login_sessions apart) refl,
)

-- A revoked login is not among the active ones of its user.
pub revoke_event_clears :
    (user : User) (event_id : ℕ) (ip_address : Option Text) (row : LoginSession) (db : Db)
    → find (is_event_of event_id user.id) db.login_sessions ≡ some row
    → let (reply, db') = get_session (revoke_login_event user event_id ip_address) db in
      (reply ≡ ok tt)
      × (count_where
            (λ s. s.id == event_id)
            (select_where (is_active_of user.id) db'.login_sessions)
          ≡ 0)
unfolding revoke_login_event
revoke_event_clears user event_id ip_address row db found =
    rw found (refl, one_less user.id event_id db.login_sessions)
