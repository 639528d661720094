-- ===== src/LoginHistory.antt =====
-- app/api/v1/login_history.py: the successful logins that a user sees and revokes.
--
-- `record_login` runs as a task with a session of its own, after the request; the id is random, and
-- the address and the agent are the request's. Its session does not flush by itself
-- (`autoflush=False` in app/core/database.py), so the new row is added after the eviction, by the
-- commit.
mod Cap
mod Clear
mod Tests
use lite_iam.Prelude.{
  ℕ, Text, ◌-◌, Bool, true, false, ◌&&◌, Option, none, some, List, [], ◌∷◌, ◌++◌, ◌==◌, leb, ltb,
  length, take, map, contains, find, select_where, update_where, order_by, if◌then◌else◌,
}
use lite_iam.Models.{User, LoginSession, session_revoked}
use lite_iam.Database.{◌>>=◌, ◌>>◌, Handler, gets, or_raise, http, emit, modify, pure, commit}

abbrev pub max_sessions_per_user : ℕ
max_sessions_per_user = 10

abbrev pub new_session : User → Option Text → Option Text → ℕ → ℕ → LoginSession
new_session user ip_address user_agent id now = record {
  id = id;
  user_id = user.id;
  tenant_id = user.tenant_id;
  ip_address = ip_address;
  user_agent = user_agent;
  created_at = now;
  last_seen_at = now;
  is_active = true;
}

abbrev pub is_active_of : ℕ → LoginSession → Bool
is_active_of user_id s = (s.user_id == user_id) && s.is_active

abbrev pub ended : LoginSession → LoginSession
ended s = record s { is_active = false }

-- The ids that are evicted from a user's active sessions, oldest first.
abbrev pub evict_ids : List LoginSession → List ℕ
evict_ids existing = map (λ s. s.id) (take (length existing - (max_sessions_per_user - 1)) existing)

abbrev pub oldest_first : List LoginSession → List LoginSession
oldest_first = order_by (λ a b. leb a.created_at b.created_at)

unfoldable pub record_login : User → Option Text → Option Text → ℕ → ℕ → Handler (Unit {0})
record_login user ip_address user_agent id now = do
  existing ← gets (λ db. oldest_first (select_where (is_active_of user.id) db.login_sessions))
  if ltb (max_sessions_per_user - 1) (length existing)
      then modify (λ db. record db {
        login_sessions =
            update_where (λ s. contains (evict_ids existing) s.id) ended db.login_sessions;
      })
      else pure tt
  modify λ db. record db {
    login_sessions = db.login_sessions ++ new_session user ip_address user_agent id now ∷ [];
  }
  commit

pub record LoginEventRead : Type 0 where
  pub id : ℕ
  pub ip_address : Option Text
  pub user_agent : Option Text
  pub created_at : ℕ
  pub last_seen_at : ℕ
  pub is_current : Bool

abbrev optional_eq : Option Text → Option Text → Bool
optional_eq none none = true
optional_eq none (some b) = false
optional_eq (some a) none = false
optional_eq (some a) (some b) = a == b

-- `t or ""`
abbrev or_blank : Option Text → Text
or_blank none = 0
or_blank (some t) = t

abbrev pub event_read : Option Text → Option Text → LoginSession → LoginEventRead
event_read current_ip current_ua s = record {
  id = s.id;
  ip_address = s.ip_address;
  user_agent = s.user_agent;
  created_at = s.created_at;
  last_seen_at = s.last_seen_at;
  is_current =
      optional_eq s.ip_address current_ip && (or_blank s.user_agent == or_blank current_ua);
}

unfoldable pub list_login_events : User → Option Text → Option Text → Handler (List LoginEventRead)
unfolding order_by
list_login_events user current_ip current_ua = do
  rows ← gets (λ db. select_where (is_active_of user.id) db.login_sessions)
  pure (
      map (event_read current_ip current_ua) (order_by (λ a b. leb b.created_at a.created_at) rows))

abbrev pub is_event_of : ℕ → ℕ → LoginSession → Bool
is_event_of event_id user_id s = (s.id == event_id) && (s.user_id == user_id)

unfoldable pub revoke_login_event : User → ℕ → Option Text → Handler (Unit {0})
revoke_login_event user event_id ip_address = do
  found ← gets (λ db. find (is_event_of event_id user.id) db.login_sessions)
  row ← or_raise found (http 404 "Login event not found")
  modify λ db. record db {
    login_sessions = update_where (λ s. s.id == event_id) ended db.login_sessions;
  }
  emit session_revoked (some user.tenant_id) (some user.id) ip_address
  commit

unfoldable pub revoke_all_login_events : User → Option Text → Handler (Unit {0})
revoke_all_login_events user ip_address = do
  modify λ db. record db {
    login_sessions = update_where (is_active_of user.id) ended db.login_sessions;
  }
  emit session_revoked (some user.tenant_id) (some user.id) ip_address
  commit
