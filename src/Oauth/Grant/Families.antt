-- ===== src/Oauth/Grant/Families.antt =====
-- Live rows of a token family, counted through the updates of the refresh grant.
use lite_iam.Prelude.{
  ℕ, Text, ◌+◌, ◌≤◌, ◌≡◌, refl, Bool, true, not, ◌&&◌, some, List, [], ◌∷◌, ◌++◌, ◌==◌, arith,
  sql_eq, find, update_where, count_where,
}
use lite_iam.Models.{OauthToken}

abbrev pub revoke : OauthToken → OauthToken
revoke r = record r { revoked = true }

-- A row of the family that is not revoked.
abbrev pub is_live : ℕ → OauthToken → Bool
is_live family r = sql_eq r.token_family_id family && not r.revoked

-- A row of the family, issued to the client, that is not revoked.
abbrev pub is_live_for : Text → ℕ → OauthToken → Bool
is_live_for client_id family r = is_live family r && (r.client_id == client_id)

-- The rows that theft detection revokes.
abbrev pub is_member : Text → ℕ → OauthToken → Bool
is_member client_id family r = sql_eq r.token_family_id family && (r.client_id == client_id)

module _ {A : Type 0} where
  pub count-append :
      (p : A → Bool) (xs ys : List A)
      → count_where p (xs ++ ys) ≡ count_where p xs + count_where p ys
  count-append p [] ys = omega arith
  count-append p (x ∷ xs) ys = omega (arith, count-append p xs ys)

-- Revoking rows brings none to life.
pub live-revoke :
    (family : ℕ) (p : OauthToken → Bool) (rows : List OauthToken)
    → count_where (is_live family) (update_where p revoke rows) ≤ count_where (is_live family) rows
live-revoke family p [] = omega arith
live-revoke family p (r ∷ rows) = ground (arith, live-revoke family p rows)

-- Revoking by the id of a live row that a query finds takes at least that row.
pub live-revoke_found :
    (family : ℕ) (q : OauthToken → Bool) (rows : List OauthToken) (t : OauthToken)
    → find q rows ≡ some t
    → is_live family t ≡ true
    → count_where (is_live family) (update_where (λ r. r.id == t.id) revoke rows) + 1
      ≤ count_where (is_live family) rows
live-revoke_found family q [] t found live = ground arith
live-revoke_found family q (r ∷ rows) t found live =
    ground (arith, live-revoke family (λ v. v.id == t.id) rows, live-revoke_found family q rows t)

-- After theft detection no row of the family and the client is live.
pub live-revoke_member :
    (client_id family : ℕ) (rows : List OauthToken)
    → count_where
        (is_live_for client_id family)
        (update_where (is_member client_id family) revoke rows)
      ≡ 0
live-revoke_member client_id family [] = refl
live-revoke_member client_id family (r ∷ rows) =
    ground (arith, live-revoke_member client_id family rows)
