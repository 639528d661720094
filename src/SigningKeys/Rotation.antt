-- ===== src/SigningKeys/Rotation.antt =====
-- app/tokens/keys.py and scheduler.py: what a rotation leaves in the worker and in the table.
use lite_iam.Prelude.{
  ℕ, Text, ◌≡◌, ◌≢◌, ◌<◌, ◌≤◌, ap, ◌∙◌, count_where, count-snoc, [], ◌∷◌, ◌++◌, ◌==◌, refl, Bool,
  true, Option, none, some, List, [], ◌∷◌, inl, inr, arith, find, ◌&&◌, lookup, map, select_where,
  Bool-cases, Option-cases, ltb, ◌+◌,
}
use lite_iam.SigningKeys.{
  pem_of, CurrentKey, Db, External, SigningKey, FreshKey, KeyManager, initialize, is_unexpired,
  maybe_rotate, check_rotation, rotate, get_public_pem_by_kid, is_due, new_key,
}
use lite_iam.Tokens.{Keys, decode_token}
use lite_iam.Database.{get_session, ok}
use lite_iam.Database.Runs.{find-append}
use lite_iam.SigningKeys.Jwks.{jwks_response, invalidate_jwks_cache, Cache, cache_ttl}

-- The keys that a request reads, where `current` signs.
abbrev pub keys_of : CurrentKey → KeyManager → Keys
keys_of current km = record {
  kid = current.kid;
  private_pem = current.private_pem;
  public_pems = km.public_pems;
}

abbrev pub current_of : Db → Option SigningKey
current_of db = find (λ r. r.is_current) db.signing_keys

lookup_valid :
    (kid now : ℕ) (row : SigningKey) (rows : List SigningKey)
    → find (λ r. r.kid == kid) rows ≡ some row
    → is_unexpired now row ≡ true
    → lookup kid (map pem_of (select_where (is_unexpired now) rows)) ≡ some row.public_key_pem
lookup_valid kid now row [] found valid = ground arith
lookup_valid kid now row (r ∷ rows) found valid = elim (Bool-cases (r.kid == kid)) [
  | inl here ↦ ground arith
  | inr later ↦ elim (Bool-cases (is_unexpired now r)) [
    | inl kept ↦ ground (arith, lookup_valid kid now row rows)
    | inr gone ↦ ground (arith, lookup_valid kid now row rows)
  ]
]

lookup_expired :
    (kid now : ℕ) (rows : List SigningKey)
    → find (λ r. (r.kid == kid) && is_unexpired now r) rows ≡ none
    → lookup kid (map pem_of (select_where (is_unexpired now) rows)) ≡ none
lookup_expired kid now [] gone = refl
lookup_expired kid now (r ∷ rows) gone = ground (arith, lookup_expired kid now rows)

module _ (x : External) (rotation_days now : ℕ) (fresh : FreshKey) where
  -- The daily check of the signing key, whether it rotates or not and even if it fails, changes
  -- nothing in how the worker decodes a token that another kid than the fresh one signed.
  pub rotation_keeps_tokens :
      (km : KeyManager) (old new : CurrentKey) (verify_exp : Bool) (later : ℕ) (token kid : Text)
      (db : Db)
      → x.jwt_kid token ≡ some kid
      → kid ≢ fresh.kid
      → let (km', db') = maybe_rotate x rotation_days now fresh km db in
        decode_token x (keys_of new km') verify_exp later token
        ≡ decode_token x (keys_of old km) verify_exp later token
  unfolding maybe_rotate check_rotation rotate decode_token
  rotation_keeps_tokens km old new verify_exp later token kid db headed other = ground arith

  -- A worker that starts verifies with each key of the table that has not expired.
  pub initialize_verifies :
      (km : KeyManager) (row : SigningKey) (db : Db)
      → find (λ r. r.kid == row.kid) db.signing_keys ≡ some row
      → now < row.expires_at
      → (get_session (initialize x rotation_days now fresh) db).0 ≡ ok km
      → get_public_pem_by_kid row.kid km ≡ some row.public_key_pem
  unfolding initialize
  initialize_verifies km row db found valid done =
      let unexpired : is_unexpired now row ≡ true = ground arith in
      let added = db.signing_keys ++ new_key x rotation_days now fresh ∷ [] in
      elim (Option-cases (current_of db)) [
        | inl absent ↦ ground (
          arith,
          lookup_valid row.kid now row added,
          find-append (λ r. r.kid == row.kid) db.signing_keys
              (new_key x rotation_days now fresh ∷ []) row,
        )
        | inr (current, stored) ↦ ground (arith, lookup_valid row.kid now row db.signing_keys found)
      ]

  -- A rotation that is due gives the worker the new key, to sign and to verify, and stores its row,
  -- while the row that was current stays current in the table.
  pub rotation_leaves_current :
      (km : KeyManager) (row : SigningKey) (db : Db)
      → current_of db ≡ some row
      → is_due x rotation_days now fresh row ≡ true
      → x.decrypt (x.encrypt fresh.private_pem) ≡ some fresh.private_pem
      → let (km', db') = maybe_rotate x rotation_days now fresh km db in
        (km'.current ≡ some (record { kid = fresh.kid; private_pem = fresh.private_pem }))
        × (get_public_pem_by_kid fresh.kid km' ≡ some fresh.public_pem)
        × (db'.signing_keys ≡ db.signing_keys ++ new_key x rotation_days now fresh ∷ [])
        × (current_of db' ≡ some row)
  unfolding maybe_rotate check_rotation rotate
  rotation_leaves_current km row db found due opens =
      rw (found, due, opens)
        (
          refl,
          ground arith,
          refl,
          find-append (λ r. r.is_current) db.signing_keys (new_key x rotation_days now fresh ∷ [])
              row found,
        )

  -- The key set that is served next has the new key behind those of before, if the monotonic clock
  -- has passed the cache's time since it started.
  pub rotated_is_served :
      (km : KeyManager) (row : SigningKey) (cache : Cache) (at : ℕ) (db : Db)
      → current_of db ≡ some row
      → is_due x rotation_days now fresh row ≡ true
      → x.decrypt (x.encrypt fresh.private_pem) ≡ some fresh.private_pem
      → cache_ttl < at
      → let (km', db') = maybe_rotate x rotation_days now fresh km db in
        (jwks_response km' at (invalidate_jwks_cache cache)).0
        ≡ km.valid_jwks ++ (record { kid = fresh.kid; public_pem = fresh.public_pem }) ∷ []
  unfolding maybe_rotate check_rotation rotate jwks_response invalidate_jwks_cache
  rotated_is_served km row cache at db found due opens late =
      let stale : ltb (0 + cache_ttl) at ≡ true = ground arith in
      elim (Option-cases cache.jwks_cache) [
        | inl empty ↦ rw (found, due, opens, empty) refl
        | inr (keys, filled) ↦ rw (found, due, opens, filled, stale) refl
      ]

-- What a rotation to a key leaves: it signs and verifies, and its row is stored.
abbrev pub HasRotated : External → ℕ → FreshKey → ℕ → Db → KeyManager × Db → Type 0
HasRotated x rotation_days drawn at db (km, db') =
    (km.current ≡ some (record { kid = drawn.kid; private_pem = drawn.private_pem }))
    × (get_public_pem_by_kid drawn.kid km ≡ some drawn.public_pem)
    × (db'.signing_keys ≡ db.signing_keys ++ new_key x rotation_days at drawn ∷ [])

-- How many rows are marked as current.
abbrev pub marks : Db → ℕ
marks db = count_where (λ r. r.is_current) db.signing_keys

-- A worker that starts when the only row marked as current has expired, and no unexpired row has
-- its kid, has no public key for that kid. Its first check gives it a fresh key, with which it
-- signs and verifies, and stores its row, but leaves the mark on the expired row, so that two rows
-- are marked as current. Condition: Fernet decrypts the fresh key that it encrypted.
pub restart_then_check :
    (x : External) (rotation_days now first : ℕ) (drawn : FreshKey) (km : KeyManager)
    (row : SigningKey) (db : Db)
    → current_of db ≡ some row
    → marks db ≡ 1
    → row.expires_at ≤ now
    → find (λ r. (r.kid == row.kid) && is_unexpired now r) db.signing_keys ≡ none
    → now ≤ first
    → x.decrypt (x.encrypt drawn.private_pem) ≡ some drawn.private_pem
    → (get_session (initialize x rotation_days now drawn) db).0 ≡ ok km
    → let db1 = (get_session (initialize x rotation_days now drawn) db).1 in
      let checked = maybe_rotate x rotation_days first drawn km db1 in
      (get_public_pem_by_kid row.kid km ≡ none)
      × HasRotated x rotation_days drawn first db checked
      × (marks checked.1 ≡ 2)
unfolding initialize
restart_then_check x rotation_days now first drawn km row db found one expired gone early opens
      done =
    let same : (get_session (initialize x rotation_days now drawn) db).1 ≡ db = ground arith in
    let unverified = lookup_expired row.kid now db.signing_keys gone in
    let (signs, verifies, stored, current) =
      rotation_leaves_current x rotation_days first drawn km row db found (ground arith) opens in
    rw same (
      ground arith,
      (signs, verifies, stored),
      ap (count_where (λ r. r.is_current)) stored
          ∙ (count-snoc (λ r. r.is_current) db.signing_keys (new_key x rotation_days first drawn)
              ∙ ground arith),
    )
