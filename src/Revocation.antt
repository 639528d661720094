-- ===== src/Revocation.antt =====
-- app/tokens/revocation.py: the table of revoked token ids and the set that each worker keeps.
-- The set is a list, and the NOTIFY of a revocation is the event that another worker hears.
mod Cover
mod Tests
use lite_iam.Prelude.{
  ℕ, Text, Bool, true, false, not, ◌&&◌, List, [], ◌∷◌, ◌++◌, ltb, leb, ◌==◌, if◌then◌else◌,
  contains, map, select_where, delete_where, is_some, find,
}
use lite_iam.Models.{RevokedToken}
use lite_iam.Database.{Handler, modify, ok, ◌>>=◌, ◌>>◌, gets, raise_if, internal}

-- `_revoked_jtis.add(jti)`, in the worker that serves the request, before any commit.
abbrev blacklist : Text → Handler (Unit {0})
blacklist jti s = (ok tt, record s { blacklisted = s.blacklisted ++ jti ∷ [] })

-- `revoked_tokens.jti` is UNIQUE.
abbrev pub has_jti : Text → RevokedToken → Bool
has_jti jti r = r.jti == jti

-- `revoke_token`: for an id that the table has, the flush raises, before the worker's set changes.
unfoldable pub revoke_token : Text → ℕ → Handler (Unit {0})
revoke_token jti expires_at = do
  taken ← gets (λ db. is_some (find (has_jti jti) db.revoked_tokens))
  raise_if taken internal
  modify λ db. record db {
    revoked_tokens = db.revoked_tokens ++ (record { jti = jti; expires_at = expires_at }) ∷ [];
  }
  blacklist jti

-- `is_revoked`
pub is_revoked : List Text → Text → Bool
is_revoked revoked_jtis jti = contains revoked_jtis jti

-- A worker: the shared table and its own set.
pub record Worker : Type 0 where
  pub table : List RevokedToken
  pub revoked_jtis : List Text

-- `_load_active_revocations` at start-up.
pub load_active : ℕ → Worker → Worker
load_active now w = record w {
  revoked_jtis =
      map (λ r. r.jti) (select_where (λ r. ltb now r.expires_at) w.table) ++ w.revoked_jtis;
}

-- `_on_revoke` of the listener: a committed revocation arrives.
unfoldable pub on_revoke : RevokedToken → Worker → Worker
on_revoke row w = record { table = w.table ++ row ∷ []; revoked_jtis = row.jti ∷ w.revoked_jtis }

-- `set.difference_update`
abbrev without : List Text → List Text → List Text
without gone [] = []
without gone (j ∷ jtis) = let rest = without gone jtis in if contains gone j then rest else j ∷ rest

-- `_prune_expired_jtis`
pub prune_expired : ℕ → Worker → Worker
prune_expired now w =
    let expired = map (λ r. r.jti) (select_where (λ r. leb r.expires_at now) w.table) in
    record {
      table = delete_where (λ r. leb r.expires_at now) w.table;
      revoked_jtis = without expired w.revoked_jtis;
    }
