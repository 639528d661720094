-- ===== src/Signup/Unique.antt =====
-- app/api/v1/auth.py: no two organisations have one slug, and no two accounts one address.
use lite_iam.Prelude.{
  ℕ, Text, ◌≤◌, ◌≡◌, ◌⊎◌, ◌++◌, refl, Bool, true, not, none, List, [], ◌∷◌, inl, inr, arith,
  count-snoc, count_none, count_where, find, Bool-cases, ap, ◌∙◌, Option-cases, truthy, ltb,
}
use lite_iam.Social.{has_email}
use lite_iam.Database.{Db, get_session}
use lite_iam.External.{External}
use lite_iam.Signup.{
  create_tenant, Settings, Tenant, User, has_slug, owner, signup, Drawn, create_organisation,
  SignupRequest, new_tenant, org_name, unique_slug, min_password_length,
}

pub record AreUnique (db : Db) : Type 0 where
  pub slugs : (slug : Text) → count_where (has_slug slug) db.tenants ≤ 1
  pub emails : (email : Text) → count_where (has_email email) db.users ≤ 1

module _ {A : Type 0} where
  -- A row joins others that do not pass its own test.
  one_more :
      (key : Text → A → Bool) (new : Text) (rows : List A) (row : A)
      → find (key new) rows ≡ none
      → ((other : Text) → key other row ≡ true → other ≡ new)
      → ((k : Text) → count_where (key k) rows ≤ 1)
      → (k : Text) → count_where (key k) (rows ++ row ∷ []) ≤ 1
  one_more key new rows row free own few k = elim (Bool-cases (key k row)) [
    | inr other ↦ ground (arith, count-snoc (key k) rows row, few k)
    | inl same ↦
        let here : count_where (key k) rows ≡ 0 =
          ap (λ j. count_where (key j) rows) (own k same) ∙ count_none (key new) rows free in
        ground (arith, count-snoc (key k) rows row)
  ]

-- What a request did: nothing, or an organisation whose slug was free.
abbrev Founded : Db → Db → Type 0
Founded db db' =
    (slug : Text) × (t : Tenant) × (t.slug ≡ slug)
    × (find (has_slug slug) db.tenants ≡ none)
    × (db'.tenants ≡ db.tenants ++ t ∷ [])

create_tenant_outcome :
    (admin : User) (id : ℕ) (slug name : Text) (db : Db)
    → let db' = (get_session (create_tenant admin id slug name) db).1 in
      (db' ≡ db) ⊎ (Founded db db' × (db'.users ≡ db.users))
unfolding create_tenant
create_tenant_outcome admin id slug name db = elim (Bool-cases (not admin.is_superuser)) [
  | inl ordinary ↦ inl (rw ordinary refl)
  | inr super ↦ elim (Option-cases (find (has_slug slug) db.tenants)) [
    | inr (t, taken) ↦ inl (rw (super, taken) refl)
    | inl free ↦ inr (rw (super, free) ((slug, new_tenant id slug name, refl, free, refl), refl))
  ]
]

module _ (x : External) (cfg : Settings) (len : Text → ℕ) (slugify : Text → Text)
    (suffixed : Text → Text → Text) where
  signup_outcome :
      (drawn : Drawn) (body : SignupRequest) (db : Db)
      → let db' = (get_session (signup x cfg len slugify suffixed drawn body) db).1 in
        (db' ≡ db)
        ⊎ (Founded db db'
            × (find (has_email body.email) db.users ≡ none)
            × (db'.users ≡ db.users ++ owner x cfg len slugify suffixed drawn body ∷ []))
  unfolding signup create_organisation
  signup_outcome drawn body db =
      let name = org_name x cfg len slugify suffixed drawn body in
      let slug = unique_slug (suffixed (slugify name)) (slugify name) drawn.randoms drawn.last db in
      elim (Bool-cases (not (truthy name))) [
        | inl unnamed ↦ inl (rw unnamed refl)
        | inr named ↦ elim (Bool-cases (ltb (len body.password) min_password_length)) [
          | inl short ↦ inl (rw (named, short) refl)
          | inr long ↦ elim (Option-cases (find (has_email body.email) db.users)) [
            | inr (u, known) ↦ inl (rw (named, long, known) refl)
            | inl unknown ↦ elim (Option-cases (find (has_slug slug) db.tenants)) [
              | inr (t, taken) ↦ inl (rw (named, long, unknown, taken) refl)
              | inl free ↦ inr (
                  rw (named, long, unknown, free)
                    ((slug, new_tenant drawn.tenant_id slug name, refl, free, refl), refl, refl))
            ]
          ]
        ]
      ]

  -- Requests one after the other.
  pub data SignUps (db : Db) : Db → Type 0 where
    start : SignUps db db
    founds :
        (db' : Db) (admin : User) (id : ℕ) (slug name : Text)
        → SignUps db db'
        → SignUps db (get_session (create_tenant admin id slug name) db').1
    joins :
        (db' : Db) (drawn : Drawn) (body : SignupRequest)
        → SignUps db db'
        → SignUps db (get_session (signup x cfg len slugify suffixed drawn body) db').1

  Founded-slugs :
      (db db' : Db)
      → Founded db db'
      → AreUnique db
      → (slug : Text) → count_where (has_slug slug) db'.tenants ≤ 1
  Founded-slugs db db' (slug, t, named, free, added) unique k =
      rw added
        (one_more has_slug slug db.tenants t free (λ other same. ground arith) unique.slugs k)

  -- If no two organisations have one slug and no two accounts one address, this is so after any
  -- sequence of sign-ups and creations of tenants.
  pub SignUps-AreUnique : (db db' : Db) → SignUps db db' → AreUnique db → AreUnique db'
  SignUps-AreUnique db _ start unique = unique
  SignUps-AreUnique db _ (founds db' admin id slug name before) unique =
      let unique' = SignUps-AreUnique db db' before unique in
      let after = (get_session (create_tenant admin id slug name) db').1 in
      elim (create_tenant_outcome admin id slug name db') [
        | inl same ↦ rw same unique'
        | inr (founded, users) ↦ record {
          slugs = Founded-slugs db' after founded unique';
          emails = λ email. rw users (unique'.emails email);
        }
      ]
  SignUps-AreUnique db _ (joins db' drawn body before) unique =
      let unique' = SignUps-AreUnique db db' before unique in
      let after = (get_session (signup x cfg len slugify suffixed drawn body) db').1 in
      elim (signup_outcome drawn body db') [
        | inl same ↦ rw same unique'
        | inr (founded, unknown, users) ↦ record {
          slugs = Founded-slugs db' after founded unique';
          emails = λ email. rw users (
              one_more has_email body.email db'.users (owner x cfg len slugify suffixed drawn body)
                unknown (λ other same. ground arith) unique'.emails email);
        }
      ]
