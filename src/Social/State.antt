-- ===== src/Social/State.antt =====
-- app/identity/social.py: the signed state of a sign-in.
use lite_iam.Models.{RevokedToken}
use lite_iam.Revocation.{has_jti}
use lite_iam.Prelude.{
  ℕ, Text, ◌+◌, ◌≡◌, refl, ◌≤◌, true, false, some, List, [], ◌∷◌, ltb, contains, if◌then◌else◌,
  arith, Option-cases, inl, inr, ◌∙◌, find, none, ◌⊎◌,
}
use lite_iam.Database.{
  ◌>>=◌, Session, ok, err, http, Db, Error, open_session, Handler, Result, internal,
}
use lite_iam.Social.{
  Codec, External, generate_oauth_state, verify_oauth_state, google, state_ttl, User,
  upsert_oauth_user, get_tenant_by_id,
}
use lite_iam.Social.Callback.{
  Google, CallbackRequest, google_callback, finish, ask_google, sign_in_with_google,
}
use lite_iam.Database.Runs.{Result-cases}
use lite_iam.MagicLink.{SignedIn}

module _ (codec : Codec) (secret_key : Text) where
  -- A generated state is accepted until 300 seconds later with its tenant and nonce, and refused as
  -- expired from then on, unless its nonce was consumed. Conditions: the encodings can be undone.
  pub generate_then_verify :
      (tenant_id nonce : Text) (now later : ℕ) (revoked_jtis : List Text) (s : Session)
      → let ts = codec.show_int now in
        let payload = codec.payload tenant_id nonce ts in
        codec.decode (codec.encode payload (codec.sign secret_key payload))
          ≡ some (tenant_id, nonce, ts, codec.sign secret_key payload)
        → codec.as_int (codec.show_int now) ≡ some now
        → contains revoked_jtis (codec.nonce_key nonce) ≡ false
        → verify_oauth_state codec secret_key revoked_jtis later
            (generate_oauth_state codec secret_key tenant_id nonce now)
            s
          ≡ (if ltb (now + state_ttl) later
              then (err (http 400 "OAuth state has expired"), s)
              else (ok (tenant_id, nonce), s))
  unfolding generate_oauth_state verify_oauth_state
  generate_then_verify tenant_id nonce now later revoked_jtis s decodes reads fresh = ground arith

  -- What is accepted was signed with the service's key, is at most 300 seconds old, and its nonce
  -- is not consumed.
  pub verify_oauth_state_sound :
      (state tenant_id nonce : Text) (now : ℕ) (revoked_jtis : List Text) (s : Session)
      → (verify_oauth_state codec secret_key revoked_jtis now state s).0 ≡ ok (tenant_id, nonce)
      → (ts : Text) × (at : ℕ) × (codec.decode state
          ≡ some (tenant_id, nonce, ts, codec.sign secret_key (codec.payload tenant_id nonce ts)))
        × (codec.as_int ts ≡ some at)
        × (now ≤ at + state_ttl)
        × (contains revoked_jtis (codec.nonce_key nonce) ≡ false)
  unfolding verify_oauth_state
  verify_oauth_state_sound state tenant_id nonce now revoked_jtis s done =
      elim (Option-cases (codec.decode state)) [
        | inl malformed ↦ absurd (ground arith)
        | inr ((t, n, ts, sig), decoded) ↦ elim (Option-cases (codec.as_int ts)) [
          | inl unreadable ↦ absurd (ground arith)
          | inr (at, read) ↦ (ts, at, ground arith, read, ground arith, ground arith)
        ]
      ]

  used_is_refused :
      (state tenant_id nonce ts sig : Text) (now : ℕ) (revoked_jtis : List Text) (s : Session)
      → codec.decode state ≡ some (tenant_id, nonce, ts, sig)
      → contains revoked_jtis (codec.nonce_key nonce) ≡ true
      → (e : Error) × ((verify_oauth_state codec secret_key revoked_jtis now state s).0 ≡ err e)
  used_is_refused state tenant_id nonce ts sig now revoked_jtis s decoded used =
      elim (Result-cases (verify_oauth_state codec secret_key revoked_jtis now state s).0) [
        | inr refused ↦ refused
        | inl ((t, n), accepted) ↦
            let (ts', at, parts, read, early, fresh) =
              verify_oauth_state_sound state t n now revoked_jtis s accepted in
            absurd (ground arith)
      ]

-- A handler that leaves the worker's set as it was, however it ends.
abbrev Still : {A : Type 0} → Handler A → Type 0
Still m = (s : Session) → (m s).1.blacklisted ≡ s.blacklisted

bind-Still :
    {A B : Type 0} (m : Handler A) (f : A → Handler B)
    → Still m
    → ((a : A) → Still (f a))
    → Still (m >>= f)
bind-Still m f still rest s = elim (Result-cases (m s).0) [
  | inl (a, ran) ↦ rw ran (rest a (m s).1 ∙ still s)
  | inr (e, failed) ↦ rw failed (still s)
]

get_tenant_by_id-Still : (x : External) (tenant_id : Text) → Still (get_tenant_by_id x tenant_id)
unfolding get_tenant_by_id
get_tenant_by_id-Still x tenant_id s = ground arith

upsert-Still :
    (x : External) (user_id link_id : ℕ) (email : Text) (tenant_id : ℕ) (p q t : Text)
    → Still (upsert_oauth_user x user_id link_id email tenant_id p q t)
unfolding upsert_oauth_user
upsert-Still x user_id link_id email tenant_id p q t s = ground arith

module _ (x : External) (codec : Codec) (secret_key : Text) (answers : Google)
    (write_token write_mfa_pending_token : User → Text) (request : CallbackRequest) where
  ask_google-Still :
      Still (ask_google x codec secret_key answers write_token write_mfa_pending_token request)
  unfolding ask_google
  ask_google-Still s = ground arith

  finish-Still :
      (user : User)
      → Still (finish x codec secret_key answers write_token write_mfa_pending_token request user)
  unfolding finish
  finish-Still user s = ground arith

  sign_in_with_google-Still :
      (tenant_id : Text)
      → Still (
          sign_in_with_google x codec secret_key answers write_token write_mfa_pending_token request
            tenant_id)
  unfolding sign_in_with_google
  sign_in_with_google-Still tenant_id =
      bind-Still _ _ (get_tenant_by_id-Still x tenant_id) λ tenant.
        bind-Still
          (ask_google x codec secret_key answers write_token write_mfa_pending_token request) _
          ask_google-Still
          λ (email, google_sub, access_token).
            bind-Still
              (upsert_oauth_user x request.user_id request.link_id email tenant.id google google_sub
                access_token)
              _
              (upsert-Still x request.user_id request.link_id email tenant.id google google_sub
                access_token)
              finish-Still

  -- A state is read without a change.
  verify_oauth_state-still :
      (revoked_jtis : List Text) (s : Session)
      → (verify_oauth_state codec secret_key revoked_jtis request.now request.state s).1 ≡ s
  unfolding verify_oauth_state
  verify_oauth_state-still revoked_jtis s = ground arith

  -- The callback, and the state's check at a time with a set of revoked ids.
  abbrev pub called_back : List Text → Db → Result SignedIn × Session
  called_back revoked_jtis db =
      google_callback x codec secret_key answers write_token write_mfa_pending_token request
        revoked_jtis (open_session db)

  abbrev pub checked : List Text → ℕ → Db → Result (Text × Text)
  checked revoked_jtis now db =
      (verify_oauth_state codec secret_key revoked_jtis now request.state (open_session db)).0

  callback_blacklists :
      (revoked_jtis : List Text) (tenant_id nonce : Text) (db : Db)
      → checked revoked_jtis request.now db ≡ ok (tenant_id, nonce)
      → find (has_jti (codec.nonce_key nonce)) db.revoked_tokens ≡ none
      → (called_back revoked_jtis db).1.blacklisted ≡ codec.nonce_key nonce ∷ []
  unfolding google_callback
  callback_blacklists revoked_jtis tenant_id nonce db done fresh =
      let ran : verify_oauth_state codec secret_key revoked_jtis request.now request.state
            (open_session db)
          ≡ (ok (tenant_id, nonce), open_session db) =
        ground (arith, verify_oauth_state-still revoked_jtis (open_session db)) in
      rw (ran, fresh) (sign_in_with_google-Still tenant_id _)

  callback_fails :
      (revoked_jtis : List Text) (tenant_id nonce : Text) (row : RevokedToken) (db : Db)
      → checked revoked_jtis request.now db ≡ ok (tenant_id, nonce)
      → find (has_jti (codec.nonce_key nonce)) db.revoked_tokens ≡ some row
      → called_back revoked_jtis db ≡ (err internal, open_session db)
  unfolding google_callback
  callback_fails revoked_jtis tenant_id nonce row db done used =
      let ran : verify_oauth_state codec secret_key revoked_jtis request.now request.state
            (open_session db)
          ≡ (ok (tenant_id, nonce), open_session db) =
        ground (arith, verify_oauth_state-still revoked_jtis (open_session db)) in
      rw (ran, used) refl

  -- Once the callback has accepted a state, the worker that served it refuses the same state at
  -- every later time, however the callback ended and whatever the tables are then; unless the nonce
  -- was already in the table of revoked ids, and then the callback fails with a 500 and changes
  -- neither the tables nor the worker's set.
  pub callback_consumes :
      (revoked_jtis : List Text) (tenant_id nonce : Text) (later : ℕ) (db db' : Db)
      → checked revoked_jtis request.now db ≡ ok (tenant_id, nonce)
      → ((row : RevokedToken) × (find (has_jti (codec.nonce_key nonce)) db.revoked_tokens
            ≡ some row)
          × (called_back revoked_jtis db ≡ (err internal, open_session db)))
        ⊎ ((e : Error) × (checked (called_back revoked_jtis db).1.blacklisted later db' ≡ err e))
  callback_consumes revoked_jtis tenant_id nonce later db db' done =
      let (ts, at, decoded, read, early, fresh) =
        verify_oauth_state_sound codec secret_key request.state tenant_id nonce request.now
          revoked_jtis (open_session db) done in
      elim (Option-cases (find (has_jti (codec.nonce_key nonce)) db.revoked_tokens)) [
        | inr (row, used) ↦
            inl (row, used, callback_fails revoked_jtis tenant_id nonce row db done used)
        | inl free ↦ inr (
            used_is_refused codec secret_key request.state tenant_id nonce ts _ later
              (called_back revoked_jtis db).1.blacklisted (open_session db') decoded
              (rw (callback_blacklists revoked_jtis tenant_id nonce db done free) (ground arith)))
      ]
