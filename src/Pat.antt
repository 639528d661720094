-- ===== src/Pat.antt =====
-- app/middleware/pat_auth.py: requests that come with a personal access token.
--
-- `PersonalAccessToken.expires_at is None` in the lookup is Python's identity test on a class
-- attribute, which is the constant False: `attribute_is_none`. So the disjunction asks for an
-- expiry that is later than now, and a NULL compares with nothing.
pub mod Endpoints
pub mod Access
mod Bearer
mod Quota
mod Scopes
mod Tests
use lite_iam.Prelude.{
  ◌≡◌, ◌⊎◌, inl, inr, refl, ℕ, Text, Bool, attribute_is_none, ◌&&◌, ◌||◌, Option, none, some, List,
  ◌==◌, find, sql_gt, if◌then◌else◌,
}
use lite_iam.Models.{User, PersonalAccessToken}
use lite_iam.External.{External}
use lite_iam.Database.{Db, get_user}

-- What the middleware does with a request that has such a token: it refuses, or passes it on with
-- the owner and the scopes in its state and a note of the use for the token's row.
pub data Outcome : Type 0 where
  refused : Outcome
  passed : User → List Text → ℕ → Outcome

-- To split on what was done with a request.
pub Outcome-cases :
    (o : Outcome)
    → (o ≡ refused)
      ⊎ ((user : User) × (scopes : List Text) × (id : ℕ) × (o ≡ passed user scopes id))
Outcome-cases refused = inl refl
Outcome-cases (passed user scopes id) = inr (user, scopes, id, refl)

-- The test of the lookup.
abbrev pub is_valid : Text → ℕ → PersonalAccessToken → Bool
is_valid token_hash now p =
    (p.token_hash == token_hash) && p.is_active && (attribute_is_none || sql_gt p.expires_at now)

abbrev pub is_owner : PersonalAccessToken → User → Bool
is_owner pat u = (u.id == pat.user_id) && u.is_active

abbrev owned : PersonalAccessToken → Option User → Outcome
owned pat none = refused
owned pat (some user) = passed user pat.scopes pat.id

-- `dispatch`, for the part of the token after its prefix.
unfoldable pub dispatch_pat : External → ℕ → Text → Db → Outcome
dispatch_pat x now value db = elim (find (is_valid (x.sha256 value) now) db.pats) [
  | none ↦ refused
  | some pat ↦ owned pat (find (is_owner pat) db.users)
]
