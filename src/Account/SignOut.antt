-- ===== src/Account/SignOut.antt =====
-- `logout` of app/api/v1/auth.py: what it ends, in every worker.
use lite_iam.Revocation.{has_jti, Worker, on_revoke}
use lite_iam.Prelude.{
  ℕ, Text, ◌≡◌, ◌⊎◌, refl, true, false, none, some, [], ◌∷◌, ◌++◌, truthy, arith, find,
}
use lite_iam.External.{External}
use lite_iam.Models.{RevokedToken}
use lite_iam.Database.{Db, Session, Result, ok, open_session}
use lite_iam.Tokens.{Keys, decode_token, destroyed_jti, read_token}
use lite_iam.Tokens.Stages.{read-destroyed}
use lite_iam.Account.{logout, List, User}

-- The reply and the session of a sign-out.
abbrev pub signed_out : External → Keys → List Text → ℕ → Text → Db → Result (Unit {0}) × Session
signed_out x keys revoked_jtis now token db =
    logout x keys revoked_jtis now (some token) (open_session db)

-- Signing out with a token that the service wrote, and that the worker reads as an active user,
-- succeeds and stores its id as revoked. From then on neither this worker nor another one that has
-- heard of it reads the token as a user. Conditions: the id is not in the table of revoked ids yet,
-- and PyJWT decodes the token later to the same claims, or refuses it.
pub logout_ends :
    (x : External) (keys : Keys) (revoked_jtis : List Text) (token jti exp : Text) (now later : ℕ)
    (user : User) (db : Db) (other : Worker)
    → read_token x keys revoked_jtis now (some token) db ≡ some user
    → user.is_active ≡ true
    → truthy token ≡ true
    → find (has_jti jti) db.revoked_tokens ≡ none
    → destroyed_jti x keys now token ≡ some (jti, exp)
    → (decode_token x keys true later token ≡ none)
      ⊎ (decode_token x keys true later token ≡ decode_token x keys false now token)
    → let row : RevokedToken = record { jti = jti; expires_at = exp } in
      let (reply, s) = signed_out x keys revoked_jtis now token db in
      (reply ≡ ok tt)
      × (s.saved.revoked_tokens ≡ db.revoked_tokens ++ row ∷ [])
      × (read_token x keys s.blacklisted later (some token) s.saved ≡ none)
      × (read_token x keys (on_revoke row other).revoked_jtis later (some token) s.saved ≡ none)
unfolding logout on_revoke
logout_ends x keys revoked_jtis token jti exp now later user db other reads active full fresh signed
      agrees =
    rw (reads, active, full, signed, fresh)
      (
        refl,
        refl,
        read-destroyed x keys now later token jti exp (jti ∷ []) _ agrees signed (ground arith),
        read-destroyed x keys now later token jti exp (jti ∷ other.revoked_jtis) _ agrees signed
            (ground arith),
      )
