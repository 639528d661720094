-- ===== src/SigningKeys.antt =====
-- app/tokens/keys.py and the rotation of app/tokens/scheduler.py: the signing keys of a worker and
-- their table. Times are seconds; a fresh key pair and its kid are random and so arguments. The
-- `public_pem` of the current key and the lock of `rotate` are left out: nothing reads the first,
-- and one worker rotates one at a time.
mod Rotation
pub mod Jwks
mod Tests
use lite_iam.Prelude.{
  ℕ, Text, ◌+◌, ◌*◌, Bool, Option, none, some, List, [], ◌∷◌, ◌++◌, lookup, ltb, true, find, map,
  false, if◌then◌else◌, select_where, update_where,
}
use lite_iam.Database.{
  ◌>>=◌, ◌>>◌, internal, Db, Handler, Result, gets, modify, ok, open_session, or_raise, pure,
  commit, err,
}
use lite_iam.Models.{SigningKey}
use lite_iam.External.{External}

abbrev pub day : ℕ
day = 86400

abbrev pub rotation_threshold_days : ℕ
rotation_threshold_days = 7

-- `_pem_to_jwk`: the key's numbers are those of the PEM.
pub record Jwk : Type 0 where
  pub kid : Text
  pub public_pem : Text

pub record CurrentKey : Type 0 where
  pub kid : Text
  pub private_pem : Text

pub record KeyManager : Type 0 where
  pub current : Option CurrentKey
  pub valid_jwks : List Jwk
  pub public_pems : List (Text × Text)

-- What `_generate_rsa_pair` and `token_urlsafe` return.
pub record FreshKey : Type 0 where
  pub kid : Text
  pub private_pem : Text
  pub public_pem : Text

abbrev pub jwk_of : SigningKey → Jwk
jwk_of r = record { kid = r.kid; public_pem = r.public_key_pem }

abbrev pub pem_of : SigningKey → Text × Text
pem_of r = (r.kid, r.public_key_pem)

abbrev pub is_unexpired : ℕ → SigningKey → Bool
is_unexpired now r = ltb now r.expires_at

-- `get_public_pem_by_kid`
abbrev pub get_public_pem_by_kid : Text → KeyManager → Option Text
get_public_pem_by_kid kid km = lookup kid km.public_pems

module _ (x : External) (rotation_days now : ℕ) (fresh : FreshKey) where
  abbrev pub new_key : SigningKey
  new_key = record {
    kid = fresh.kid;
    private_key_enc = x.encrypt fresh.private_pem;
    public_key_pem = fresh.public_pem;
    is_current = true;
    expires_at = now + rotation_days * day;
  }

  -- `_create_key`
  pub create_key : Handler SigningKey
  create_key = do
    modify λ db. record db { signing_keys = db.signing_keys ++ new_key ∷ [] }
    commit
    pure new_key

  -- `_decrypt_pem`: Fernet raises on a text it did not write.
  abbrev load_current : SigningKey → Handler CurrentKey
  load_current row = do
    private_pem ← or_raise (x.decrypt row.private_key_enc) internal
    pure (record { kid = row.kid; private_pem = private_pem })

  abbrev current_row : Option SigningKey → Handler SigningKey
  current_row none = create_key
  current_row (some row) = pure row

  -- `initialize`
  pub initialize : Handler KeyManager
  unfolding create_key
  initialize = do
    found ← gets (λ db. find (λ r. r.is_current) db.signing_keys)
    row ← current_row found
    current ← load_current row
    valid_rows ← gets (λ db. select_where (is_unexpired now) db.signing_keys)
    pure (record {
      current = some current;
      valid_jwks = map jwk_of valid_rows;
      public_pems = map pem_of valid_rows;
    })

  -- What a session of its own, opened on the committed tables, does to them.
  abbrev in_fresh_session : {A : Type 0} → Handler A → Handler A
  in_fresh_session m s = let (r, f) = m (open_session s.saved) in (r, record s { saved = f.saved })

  -- `rotate`. The UPDATE runs in the caller's session, and the new row is committed in another.
  pub rotate : KeyManager → Handler KeyManager
  unfolding create_key
  rotate km = do
    modify λ db. record db {
      signing_keys =
          update_where (λ r. true) (λ r. record r { is_current = false }) db.signing_keys;
    }
    new_row ← in_fresh_session create_key
    current ← load_current new_row
    pure (record {
      current = some current;
      valid_jwks = km.valid_jwks ++ jwk_of new_row ∷ [];
      public_pems = pem_of new_row ∷ km.public_pems;
    })

  -- `(exp - now).days <= 7`
  abbrev pub is_due : SigningKey → Bool
  is_due row = ltb row.expires_at (now + (rotation_threshold_days + 1) * day)

  -- The check of `_maybe_rotate` in its session.
  pub check_rotation : KeyManager → Handler KeyManager
  check_rotation km = do
    found ← gets (λ db. find (λ r. r.is_current) db.signing_keys)
    elim found [ none ↦ pure km | some row ↦ if is_due row then rotate km else pure km ]

  abbrev kept : KeyManager → Result KeyManager → KeyManager
  kept km (ok km') = km'
  kept km (err e) = km

  -- `_maybe_rotate` under the loop: its session is closed without a commit, and an exception is
  -- logged.
  pub maybe_rotate : KeyManager → Db → KeyManager × Db
  maybe_rotate km db = let (r, s) = check_rotation km (open_session db) in (kept km r, s.saved)
