-- ===== src/Social/Account.antt =====
-- app/identity/social.py: the account that a sign-in with Google reaches.
use lite_iam.Prelude.{
  Option, ◌++◌, ◌∙◌, ℕ, Text, ◌≡◌, ◌≢◌, ◌⊎◌, refl, true, none, some, [], ◌∷◌, inl, inr, find, arith,
  Option-cases, Bool-cases, ◌==◌, update_where,
}
use lite_iam.External.{External}
use lite_iam.Database.{Db, Result, get_session, ok, err}
use lite_iam.Models.{User, OauthAccount}
use lite_iam.Social.{upsert_oauth_user, has_email, is_link, new_user, other_tenant}
use lite_iam.Database.Runs.{find-append_none, find_holds, find-update_other, find-update_where}

module _ (x : External) (user_id link_id : ℕ) (email : Text) (tenant_id : ℕ)
    (provider account_id access_token : Text) (db : Db) where
  -- The reply and the tables of an upsert.
  abbrev pub upserted : Result User × Db
  upserted =
      get_session
        (upsert_oauth_user x user_id link_id email tenant_id provider account_id access_token) db

  -- The link as the upsert of one that exists leaves it.
  abbrev renewed : OauthAccount → OauthAccount
  renewed b = record b { access_token_enc = x.encrypt access_token; account_email = email }

  -- The link that the upsert makes for an account.
  abbrev new_link : User → OauthAccount
  new_link user = record {
    id = link_id;
    user_id = user.id;
    oauth_name = provider;
    account_id = account_id;
    account_email = email;
    access_token_enc = x.encrypt access_token;
  }

  abbrev pub link_in : Db → Option OauthAccount
  link_in tables = find (is_link provider account_id) tables.oauth_accounts

  -- The link is the user's where there was none, and otherwise the one that was there, renewed.
  abbrev pub HasLink : User → Type 0
  HasLink user =
      ((link_in db ≡ none) × (link_in upserted.1 ≡ some (new_link user)))
      ⊎ ((old : OauthAccount) × (link_in db ≡ some old) × (link_in upserted.1 ≡ some (renewed old)))

  -- An account of the tenant with the address, active and linked.
  abbrev pub IsLinked : User → Type 0
  IsLinked user =
      (upserted.0 ≡ ok user)
      × (user.email ≡ email)
      × (user.tenant_id ≡ tenant_id)
      × (user.is_active ≡ true)
      × (find (has_email email) upserted.1.users ≡ some user)
      × HasLink user

  relinked :
      (old : OauthAccount)
      → find (is_link provider account_id) db.oauth_accounts ≡ some old
      → find
          (is_link provider account_id)
          (update_where (is_link provider account_id) renewed db.oauth_accounts)
        ≡ some (renewed old)
  relinked old linked =
      find-update_where (is_link provider account_id) renewed db.oauth_accounts old (λ a. refl)
        linked

  added :
      link_in db ≡ none
      → (link : OauthAccount) → is_link provider account_id link ≡ true
      → find (is_link provider account_id) (db.oauth_accounts ++ link ∷ []) ≡ some link
  added unlinked link own =
      find-append_none (is_link provider account_id) db.oauth_accounts (link ∷ []) unlinked
      ∙ rw own refl

  created : find (has_email email) db.users ≡ none → IsLinked (new_user user_id email tenant_id)
  unfolding upsert_oauth_user
  created absent = elim (Option-cases (find (is_link provider account_id) db.oauth_accounts)) [
    | inl unlinked ↦
        rw (absent, unlinked)
          (
            refl,
            refl,
            refl,
            refl,
            ground (
              arith,
              find-append_none (has_email email) db.users (new_user user_id email tenant_id ∷ []),
            ),
            inl (refl, added unlinked _ (ground arith)),
          )
    | inr (old, linked) ↦
        rw (absent, linked)
          (
            refl,
            refl,
            refl,
            refl,
            ground (
              arith,
              find-append_none (has_email email) db.users (new_user user_id email tenant_id ∷ []),
            ),
            inr (old, refl, relinked old linked),
          )
  ]

  found_in_tenant :
      (u : User)
      → find (has_email email) db.users ≡ some u
      → u.tenant_id ≡ tenant_id
      → IsLinked (record u { is_active = true })
  unfolding upsert_oauth_user
  found_in_tenant u found own =
      let same : (u.tenant_id == tenant_id) ≡ true = ground arith in
      let at : u.email ≡ email = ground (arith, find_holds (has_email email) db.users u found) in
      let here : (u.id == u.id) ≡ true = ground arith in
      let row =
        find-update_other (has_email email) (λ v. v.id == u.id) (λ v. record v { is_active = true })
          db.users u (λ a. refl) found in
      elim (Option-cases (find (is_link provider account_id) db.oauth_accounts)) [
        | inl unlinked ↦
            rw (found, same, unlinked)
              (refl, at, own, refl, ground arith, inl (refl, added unlinked _ (ground arith)))
        | inr (old, linked) ↦
            rw (found, same, linked)
              (refl, at, own, refl, ground arith, inr (old, refl, relinked old linked))
      ]

  -- Signing in with a provider either returns an account with the address in the tenant, active and
  -- stored. The account is a new account where the address was unknown, and otherwise the stored
  -- one, made active whatever it was. The link of the provider's id names this account and holds
  -- the encrypted token where there was no link, and otherwise is the one that was there, with its
  -- user as before and the token and the address renewed. Or the address belongs to an account of
  -- another tenant, and the reply is 403 and nothing changes.
  pub upsert_oauth_user_lem :
      ((user : User) × IsLinked user
        × ((find (has_email email) db.users ≡ none)
            ⊎ ((u : User) × (find (has_email email) db.users ≡ some u)
                × (user ≡ record u { is_active = true }))))
      ⊎ ((u : User) × (find (has_email email) db.users ≡ some u)
          × (u.tenant_id ≢ tenant_id)
          × (upserted ≡ (err other_tenant, db)))
  unfolding upsert_oauth_user
  upsert_oauth_user_lem = elim (Option-cases (find (has_email email) db.users)) [
    | inl absent ↦ inl (new_user user_id email tenant_id, created absent, inl absent)
    | inr (u, found) ↦ elim (Bool-cases (u.tenant_id == tenant_id)) [
      | inl own ↦ inl (
        record u { is_active = true },
        found_in_tenant u found (ground arith),
        inr (u, found, refl),
      )
      | inr foreign ↦ inr (u, found, (λ same. ground arith), rw (found, foreign) refl)
    ]
  ]
