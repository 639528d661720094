-- ===== src/Pat/Quota.antt =====
-- app/api/v1/tokens.py: how many tokens a user has, and what becomes of a new one.
use lite_iam.Prelude.{
  count-snoc, ℕ, Text, ◌+◌, ◌*◌, ◌≡◌, ◌≤◌, refl, true, false, ◌&&◌, none, some, List, [], ◌∷◌, ◌++◌,
  ◌==◌, inl, inr, arith, count_where, if◌then◌else◌, Option-cases, update_where, Bool-cases, ltb,
  leb, truthy, ap, ◌∙◌,
}
use lite_iam.Pat.{
  is_valid, dispatch_pat, refused, passed, Db, External, PersonalAccessToken, User, find,
}
use lite_iam.Pat.Endpoints.{
  create_token, max_tokens_per_user, revoke_token, TokenCreate, is_active_of, new_pat, is_expiry,
  is_own_pat, is_subset, valid_scopes,
}
use lite_iam.Database.{get_session, ok}
use lite_iam.Database.Runs.{find-append_none}

count-deactivated :
    (user_id token_id : ℕ) (rows : List PersonalAccessToken)
    → count_where
        (is_active_of user_id)
        (update_where (λ p. p.id == token_id) (λ p. record p { is_active = false }) rows)
      ≤ count_where (is_active_of user_id) rows
count-deactivated user_id token_id [] = omega arith
count-deactivated user_id token_id (r ∷ rows) =
    ground (arith, count-deactivated user_id token_id rows)

-- The active tokens of a user.
abbrev pub active_count : ℕ → Db → ℕ
active_count user_id db = count_where (is_active_of user_id) db.pats

-- Requests of any users, one after the other.
pub data Requests (x : External) (db : Db) : Db → Type 0 where
  start : Requests x db db
  creates :
      (db' : Db) (user : User) (body : TokenCreate) (value : Text) (id now : ℕ)
      → Requests x db db'
      → Requests x db (get_session (create_token x user body value id now) db').1
  revokes :
      (db' : Db) (user : User) (token_id : ℕ)
      → Requests x db db'
      → Requests x db (get_session (revoke_token user token_id) db').1

create-active_count :
    (x : External) (user : User) (body : TokenCreate) (value : Text) (id now other : ℕ) (db : Db)
    → active_count other db ≤ max_tokens_per_user
    → active_count other (get_session (create_token x user body value id now) db).1
      ≤ max_tokens_per_user
unfolding create_token
create-active_count x user body value id now other db few =
    let new = new_pat x user body value id now in
    elim (Bool-cases (is_expiry body.expires_in_days)) [
      | inr never ↦ rw never few
      | inl dated ↦ elim (Bool-cases (is_subset body.scopes valid_scopes)) [
        | inr foreign ↦ rw (dated, foreign) few
        | inl known ↦
            elim (Bool-cases
              (leb max_tokens_per_user (count_where (is_active_of user.id) db.pats))) [
                | inl full ↦ rw (dated, known, full) few
                | inr free ↦
                    rw (dated, known, free)
                      (ground (arith, count-snoc (is_active_of other) db.pats new))
              ]
      ]
    ]

revoke-active_count :
    (user : User) (token_id other : ℕ) (db : Db)
    → active_count other (get_session (revoke_token user token_id) db).1 ≤ active_count other db
unfolding revoke_token
revoke-active_count user token_id other db =
    elim (Option-cases (find (is_own_pat user.id token_id) db.pats)) [
      | inl missing ↦ rw missing (omega arith)
      | inr (pat, found) ↦ rw found (count-deactivated other token_id db.pats)
    ]

-- If a user has at most 25 active personal access tokens, this is so after any sequence of
-- creations and revocations by any users.
pub at_most_25 :
    (x : External) (user_id : ℕ) (db db' : Db)
    → Requests x db db'
    → active_count user_id db ≤ max_tokens_per_user
    → active_count user_id db' ≤ max_tokens_per_user
at_most_25 x user_id db _ start few = few
at_most_25 x user_id db _ (creates db' user body value id now before) few =
    create-active_count x user body value id now user_id db'
      (at_most_25 x user_id db db' before few)
at_most_25 x user_id db _ (revokes db' user token_id before) few =
    omega
      (arith, revoke-active_count user token_id user_id db', at_most_25 x user_id db db' before few)

-- What a creation that returned has written.
created :
    (x : External) (user : User) (body : TokenCreate) (value : Text) (id now days : ℕ) (db : Db)
    → (get_session (create_token x user body value id now) db).0 ≡ ok value
    → body.expires_in_days ≡ some days
    → let db' = (get_session (create_token x user body value id now) db).1 in
      (db'.pats ≡ db.pats ++ new_pat x user body value id now ∷ [])
      × (db'.users ≡ db.users)
      × (truthy days ≡ true)
unfolding create_token
created x user body value id now days db done dated =
    elim (Bool-cases (is_expiry body.expires_in_days)) [
      | inr never ↦ absurd (ground arith)
      | inl in_range ↦ elim (Bool-cases (is_subset body.scopes valid_scopes)) [
        | inr foreign ↦ absurd (ground arith)
        | inl known ↦
            elim (Bool-cases
              (leb max_tokens_per_user (count_where (is_active_of user.id) db.pats))) [
                | inl full ↦ absurd (ground arith)
                | inr free ↦ (ground arith, ground arith, ground arith)
              ]
      ]
    ]

-- A new row found by its hash, in tables that have it as the last.
dispatch_new :
    (x : External) (user : User) (body : TokenCreate) (value : Text) (id now later days : ℕ)
    (db db' : Db)
    → db'.pats ≡ db.pats ++ new_pat x user body value id now ∷ []
    → db'.users ≡ db.users
    → truthy days ≡ true
    → body.expires_in_days ≡ some days
    → find (is_valid (x.sha256 value) later) db.pats ≡ none
    → find (λ u. (u.id == user.id) && u.is_active) db.users ≡ some user
    → dispatch_pat x later value db'
      ≡ (if ltb later (now + days * 86400) then passed user body.scopes id else refused)
unfolding dispatch_pat
dispatch_new x user body value id now later days db db' pats users live dated fresh owner =
    let looked =
      ap (λ rows. find (is_valid (x.sha256 value) later) rows) pats
      ∙ find-append_none (is_valid (x.sha256 value) later) db.pats
          (new_pat x user body value id now ∷ []) fresh in
    let owned = ap (λ rows. find (λ u. (u.id == user.id) && u.is_active) rows) users ∙ owner in
    let itself : (x.sha256 value == x.sha256 value) ≡ true = ground arith in
    elim (Bool-cases (ltb later (now + days * 86400))) [
      | inl early ↦ rw (dispatch_pat, looked, itself, dated, live, early, owned) refl
      | inr late ↦ rw (dispatch_pat, looked, itself, dated, live, late) refl
    ]

-- A personal access token that was created with an expiry authenticates its user, with the scopes
-- that were asked for, until the expiry, and is refused from then on. Conditions: no row stored
-- before has its hash and is valid at that time, and the stored user is active.
pub create_then_dispatch :
    (x : External) (user : User) (body : TokenCreate) (value : Text) (id now later days : ℕ)
    (db : Db)
    → (get_session (create_token x user body value id now) db).0 ≡ ok value
    → body.expires_in_days ≡ some days
    → find (is_valid (x.sha256 value) later) db.pats ≡ none
    → find (λ u. (u.id == user.id) && u.is_active) db.users ≡ some user
    → let db' = (get_session (create_token x user body value id now) db).1 in
      dispatch_pat x later value db'
      ≡ (if ltb later (now + days * 86400) then passed user body.scopes id else refused)
create_then_dispatch x user body value id now later days db done dated fresh owner =
    let (pats, users, live) = created x user body value id now days db done dated in
    dispatch_new x user body value id now later days db _ pats users live dated fresh owner
