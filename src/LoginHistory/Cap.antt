-- ===== src/LoginHistory/Cap.antt =====
-- app/api/v1/login_history.py: how many logins of a user stay active.
use lite_iam.Prelude.{
  ℕ, Text, ◌-◌, ◌≡◌, ◌≤◌, Bool, not, Option, List, [], ◌∷◌, ◌++◌, ◌==◌, ltb, leb, length, take, map,
  contains, select_where, count_where, update_where, if◌then◌else◌, refl, sym, arith, Bool-cases,
  inl, inr, ◌∙◌, count-order_by, length-order_by, length-select, count-select, count-snoc, zero,
  suc,
}
use lite_iam.Models.{User, LoginSession}
use lite_iam.Database.{Db, get_session}
use lite_iam.LoginHistory.{
  record_login, is_active_of, ended, evict_ids, oldest_first, new_session, max_sessions_per_user,
}

abbrev pub has_id : ℕ → LoginSession → Bool
has_id id s = s.id == id

-- Not among the ids.
abbrev spared : List ℕ → LoginSession → Bool
spared ids s = not (contains ids s.id)

-- The active sessions after an eviction are the spared ones.
count-evict :
    (user_id : ℕ) (ids : List ℕ) (rows : List LoginSession)
    → count_where (is_active_of user_id) (update_where (λ s. contains ids s.id) ended rows)
      ≡ count_where (spared ids) (select_where (is_active_of user_id) rows)
count-evict user_id ids [] = refl
count-evict user_id ids (r ∷ rows) = ground (arith, count-evict user_id ids rows)

all_spared : (rows : List LoginSession) → count_where (spared []) rows ≡ length rows
all_spared [] = refl
all_spared (r ∷ rows) = ground (arith, all_spared rows)

-- An id that no row has spares no row.
spared_by_one_more :
    (id : ℕ) (ids : List ℕ) (rows : List LoginSession)
    → count_where (has_id id) rows ≡ 0
    → count_where (spared (id ∷ ids)) rows ≡ count_where (spared ids) rows
spared_by_one_more id ids [] absent = refl
spared_by_one_more id ids (r ∷ rows) absent = elim (Bool-cases (r.id == id)) [
  | inl same ↦ absurd (ground arith)
  | inr other ↦ ground (arith, spared_by_one_more id ids rows)
]

-- Of rows with distinct ids, all but the first `k` are spared by the ids of these.
count-spared :
    (k : ℕ) (rows : List LoginSession)
    → ((id : ℕ) → count_where (has_id id) rows ≤ 1)
    → count_where (spared (map (λ s. s.id) (take k rows))) rows ≡ length rows - k
count-spared zero rows distinct = all_spared rows ∙ omega arith
count-spared (suc k) [] distinct = omega arith
count-spared (suc k) (r ∷ rows) distinct =
    let absent : count_where (has_id r.id) rows ≡ 0 = ground (arith, distinct r.id) in
    let rest = count-spared k rows (λ id. ground (arith, distinct id)) in
    ground (arith, spared_by_one_more r.id (map (λ s. s.id) (take k rows)) rows)

module _ (user : User) (ip_address user_agent : Option Text) (id now : ℕ) (db : Db) where
  -- The tables after the login was recorded.
  abbrev pub recorded : Db
  recorded = (get_session (record_login user ip_address user_agent id now) db).1

  abbrev existing : List LoginSession
  existing = oldest_first (select_where (is_active_of user.id) db.login_sessions)

  abbrev active : ℕ
  active = count_where (is_active_of user.id) db.login_sessions

  length-existing : length existing ≡ active
  length-existing =
      length-order_by _ (select_where (is_active_of user.id) db.login_sessions)
      ∙ length-select (is_active_of user.id) db.login_sessions

  existing_distinct :
      ((i : ℕ) → count_where (has_id i) db.login_sessions ≤ 1)
      → (i : ℕ) → count_where (has_id i) existing ≤ 1
  existing_distinct distinct i = omega (
    arith,
    count-order_by (λ a b. leb a.created_at b.created_at) (has_id i)
        (select_where (is_active_of user.id) db.login_sessions),
    count-select (has_id i) (is_active_of user.id) db.login_sessions,
    distinct i,
  )

  -- The active rows after the eviction.
  kept : List LoginSession
  kept = update_where (λ s. contains (evict_ids existing) s.id) ended db.login_sessions

  left_active :
      ((i : ℕ) → count_where (has_id i) db.login_sessions ≤ 1)
      → count_where (is_active_of user.id) kept
        ≡ active - (length existing - (max_sessions_per_user - 1))
  unfolding kept
  left_active distinct =
      count-evict user.id (evict_ids existing) db.login_sessions
      ∙ sym (
          count-order_by (λ a b. leb a.created_at b.created_at) (spared (evict_ids existing))
            (select_where (is_active_of user.id) db.login_sessions))
      ∙ count-spared (length existing - (max_sessions_per_user - 1)) existing
          (existing_distinct distinct)
      ∙ omega (arith, length-existing)

  -- The new login is one active row more.
  with_new :
      (rows : List LoginSession)
      → count_where
          (is_active_of user.id)
          (rows ++ new_session user ip_address user_agent id now ∷ [])
        ≡ suc (count_where (is_active_of user.id) rows)
  with_new rows = ground (
    arith,
    count-snoc (is_active_of user.id) rows (new_session user ip_address user_agent id now),
  )

  -- Recording a login leaves the user ten active rows if it had ten or more before, and one more
  -- than before otherwise, where no two rows have one id.
  pub record_login_caps :
      ((i : ℕ) → count_where (has_id i) db.login_sessions ≤ 1)
      → let before = count_where (is_active_of user.id) db.login_sessions in
        count_where (is_active_of user.id) recorded.login_sessions
        ≡ (if ltb 9 before then 10 else suc before)
  unfolding record_login kept
  record_login_caps distinct =
      elim (Bool-cases (ltb (max_sessions_per_user - 1) (length existing))) [
        | inl over ↦ rw over (with_new kept ∙ ground (arith, length-existing, left_active distinct))
        | inr under ↦ rw under (with_new db.login_sessions ∙ ground (arith, length-existing))
      ]
