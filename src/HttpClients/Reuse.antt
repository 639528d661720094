-- ===== src/HttpClients/Reuse.antt =====
-- app/shared/http_clients.py: one pool for a name, and none after the registry is closed.
use lite_iam.Prelude.{ℕ, Text, ◌≡◌, Bool, true, false, Option, ◌==◌, lookup, arith, ap, ◌∙◌}
use lite_iam.Database.{ok, err, internal}
use lite_iam.HttpClients.{Registry, Client, get, aclose, client_name, create, some}

same_key : (n : ℕ) → (n == n) ≡ true
same_key n = ground arith

module _ (is_closed : ℕ → Bool) where
  create-stores :
      (profile name : Text) (fresh : ℕ) (r : Registry) (c : Client)
      → (create is_closed profile name fresh r).0 ≡ ok c
      → r.closed ≡ false
      → ((create is_closed profile name fresh r).1.closed ≡ false)
        × (lookup name (create is_closed profile name fresh r).1.clients ≡ some c)
  create-stores profile name fresh r c h is_open = (let same = same_key name in ground arith)

  get-stores :
      (profile : Text) (name : Option Text) (fresh : ℕ) (r : Registry) (c : Client)
      → (get is_closed profile name fresh r).0 ≡ ok c
      → ((get is_closed profile name fresh r).1.closed ≡ false)
        × (lookup (client_name profile name) (get is_closed profile name fresh r).1.clients
            ≡ some c)
  unfolding get
  get-stores profile name fresh r c h =
      let stored = create-stores profile (client_name profile name) fresh r c in ground arith

  get-stored :
      (profile : Text) (name : Option Text) (fresh : ℕ) (r : Registry) (c : Client)
      → r.closed ≡ false
      → lookup (client_name profile name) r.clients ≡ some c
      → is_closed c.id ≡ false
      → get is_closed profile name fresh r ≡ (ok c, r)
  unfolding get
  get-stored profile name fresh r c is_open found alive = ground arith

  -- A client that was handed out is handed out again for its name, while nobody has closed it, and
  -- the registry makes no other one.
  pub get-get :
      (profile later_profile : Text) (name later_name : Option Text) (fresh later_fresh : ℕ)
      (r : Registry) (c : Client)
      → (get is_closed profile name fresh r).0 ≡ ok c
      → is_closed c.id ≡ false
      → client_name later_profile later_name ≡ client_name profile name
      → get is_closed later_profile later_name later_fresh (get is_closed profile name fresh r).1
        ≡ (ok c, (get is_closed profile name fresh r).1)
  get-get profile later_profile name later_name fresh later_fresh r c h alive same =
      let stored = get-stores profile name fresh r c h in
      let found =
        ap (λ n. lookup n (get is_closed profile name fresh r).1.clients) same ∙ stored.1 in
      get-stored later_profile later_name later_fresh (get is_closed profile name fresh r).1 c
        stored.0 found alive

  -- After the registry was closed, no client is handed out.
  pub get-aclose :
      (profile : Text) (name : Option Text) (fresh : ℕ) (r : Registry)
      → get is_closed profile name fresh (aclose r) ≡ (err internal, aclose r)
  unfolding get aclose
  get-aclose profile name fresh r = ground arith
