-- ===== src/Pat/Bearer.antt =====
-- Which personal access tokens authenticate.
use lite_iam.Prelude.{
  ℕ, Text, ◌<◌, ◌≡◌, refl, true, ◌&&◌, none, some, List, [], ◌∷◌, arith, ◌==◌, find, is_some,
  Option-cases, inl, inr,
}
use lite_iam.Models.{User, PersonalAccessToken}
use lite_iam.External.{External}
use lite_iam.Database.{Db}
use lite_iam.Database.Runs.{find_holds}
use lite_iam.Pat.{refused, passed, is_valid, is_owner, dispatch_pat}

-- A personal access token that is passed on is a row of the table with its hash that is active and
-- has an expiry that is still to come; the user is its owner and active, and the scopes are the
-- row's.
pub dispatch_pat_sound :
    (x : External) (now : ℕ) (value : Text) (db : Db) (user : User) (scopes : List Text) (id : ℕ)
    → dispatch_pat x now value db ≡ passed user scopes id
    → (pat : PersonalAccessToken) × (at : ℕ) × (find (is_valid (x.sha256 value) now) db.pats
        ≡ some pat)
      × (pat.token_hash ≡ x.sha256 value)
      × (pat.is_active ≡ true)
      × (pat.expires_at ≡ some at)
      × (now < at)
      × (user.id ≡ pat.user_id)
      × (user.is_active ≡ true)
      × (scopes ≡ pat.scopes)
unfolding dispatch_pat
dispatch_pat_sound x now value db user scopes id done =
    elim (Option-cases (find (is_valid (x.sha256 value) now) db.pats)) [
      | inl unknown ↦ absurd (ground arith)
      | inr (pat, found) ↦ elim (Option-cases (find (is_owner pat) db.users)) [
        | inl gone ↦ absurd (ground arith)
        | inr (owner, owns) ↦ elim (Option-cases pat.expires_at) [
          | inl lasting ↦
              absurd (ground (arith, find_holds (is_valid (x.sha256 value) now) db.pats pat found))
          | inr (at, expires) ↦
              let valid = find_holds (is_valid (x.sha256 value) now) db.pats pat found in
              let owner_of = find_holds (is_owner pat) db.users owner owns in
              (
                pat,
                at,
                found,
                ground arith,
                ground arith,
                expires,
                ground arith,
                ground arith,
                ground arith,
                ground arith,
              )
        ]
      ]
    ]

lasting_is_invalid :
    (token_hash now : ℕ) (pats : List PersonalAccessToken)
    → find (λ p. (p.token_hash == token_hash) && is_some p.expires_at) pats ≡ none
    → find (is_valid token_hash now) pats ≡ none
lasting_is_invalid token_hash now [] lasting = refl
lasting_is_invalid token_hash now (p ∷ pats) lasting =
    ground (arith, lasting_is_invalid token_hash now pats)

-- If no row with the hash of a personal access token has an expiry, the token is refused.
pub lasting_is_refused :
    (x : External) (now : ℕ) (value : Text) (db : Db)
    → find (λ p. (p.token_hash == x.sha256 value) && is_some p.expires_at) db.pats ≡ none
    → dispatch_pat x now value db ≡ refused
unfolding dispatch_pat
lasting_is_refused x now value db lasting =
    rw (lasting_is_invalid (x.sha256 value) now db.pats lasting, dispatch_pat) refl
