-- ===== src/StepUp/Sound.antt =====
-- app/api/v1/auth.py: what a full token that a step-up returns stands for.
use lite_iam.Prelude.{
  false, ℕ, Text, ◌≡◌, true, some, inl, inr, lookup, Option-cases, arith, ap, sym, ◌∙◌, Bool, not,
}
use lite_iam.Database.{
  Db, Session, ok, get_user, Handler, get_session, open_session, Error, raise_if, ◌>>◌,
}
use lite_iam.Literals
use lite_iam.External.{External}
use lite_iam.Tokens.{Keys, Claims}
use lite_iam.StepUp.{
  StepUpRequest, pending_user, Settings, User, read_mfa_pending_token, grant, mfa_backup_verify,
  totp_verify, StepUpResponse, verify_totp, verify_backup_code,
}
use lite_iam.Database.Runs.{get_user_id, bind_ok}
use lite_iam.Mfa.Totp.Accepts.{
  ShowsBackup, ShowsTotp, verify_totp_accepts, verify_backup_code_accepts,
}

-- A request that is answered was let in by the limit.
let_in :
    {A : Type 0} (b : Bool) (e : Error) (h : Handler A) (s : Session) (a : A)
    → ((raise_if (not b) e >> h) s).0 ≡ ok a
    → (h s).0 ≡ ok a
let_in true e h s a done = done
let_in false e h s a done = absurd (ground arith)

module _ (x : External) (keys : Keys) (request : StepUpRequest) where
  -- The account of the pending token: signed by the service for this stage, and active.
  abbrev pub IsPending : Db → User → Type 0
  IsPending db u =
      (payload : Claims) × (sub : Text) × (read_mfa_pending_token x keys request.now
          request.pending_token
        ≡ some payload)
      × (lookup Literals.sub payload ≡ some sub)
      × (x.as_uuid sub ≡ some u.id)
      × (get_user u.id db ≡ some u)
      × (u.is_active ≡ true)

  module _ (cfg : Settings) (write_token : User → Text) (device_token : Text) (device_id : ℕ) where
    abbrev pending : Handler (ℕ × User)
    pending = pending_user x cfg keys write_token device_token device_id request

    pending_user_still : (s : Session) → (pending s).1 ≡ s
    unfolding pending_user
    pending_user_still s = ground arith

    pending_user_ok :
        (s : Session) (user_id : ℕ) (u : User)
        → (pending s).0 ≡ ok (user_id, u)
        → (user_id ≡ u.id) × IsPending s.live u
    unfolding pending_user
    pending_user_ok s user_id u ran =
        elim (Option-cases (read_mfa_pending_token x keys request.now request.pending_token)) [
          | inl refused ↦ absurd (ground arith)
          | inr (payload, read) ↦ elim (Option-cases (lookup Literals.sub payload)) [
            | inl anonymous ↦ absurd (ground arith)
            | inr (sub, named) ↦ elim (Option-cases (x.as_uuid sub)) [
              | inl unparsed ↦ absurd (ground arith)
              | inr (id, parsed) ↦ elim (Option-cases (get_user id s.live)) [
                | inl gone ↦ absurd (ground arith)
                | inr (v, found) ↦
                    let own = get_user_id id s.live v found in
                    (
                      ground arith,
                      (payload, sub, read, named, ground arith, ground arith, ground arith),
                    )
              ]
            ]
          ]
        ]

    -- What follows the pending token and the code is the account's full token.
    grant_ok :
        (s : Session) (user_id : ℕ) (u : User) (reply : StepUpResponse)
        → (grant x cfg keys write_token device_token device_id request user_id u s).0 ≡ ok reply
        → reply.access_token ≡ write_token u
    unfolding grant
    grant_ok s user_id u reply done = ground arith

    -- If the TOTP step-up returns a full token, there is an account that the presented pending
    -- token stands for: the token was read as a pending one, its subject parses to the account's
    -- id, and the account is stored and active. The account has TOTP with a secret that decrypts,
    -- the code is right for it at that time and not the one accepted last, and no cooldown was
    -- running. The token is the account's.
    pub totp_verify_sound :
        (db : Db) (reply : StepUpResponse)
        → (get_session (totp_verify x cfg keys write_token device_token device_id request) db).0
          ≡ ok reply
        → (u : User) × IsPending db u
          × ShowsTotp x cfg request.code request.now u
          × (reply.access_token ≡ write_token u)
    unfolding totp_verify
    totp_verify_sound db reply done =
        let ((user_id, u), s, ran, rest) =
          bind_ok pending _ (open_session db) reply
            (let_in request.within_limit _ _ (open_session db) reply done) in
        let (own, shown) = pending_user_ok (open_session db) user_id u (ap (λ r. r.0) ran) in
        let (payload, sub, read, named, parsed, found, active) = shown in
        let still = sym (ap (λ r. r.1) ran) ∙ pending_user_still (open_session db) in
        let (b, s2, checked, granted) =
          bind_ok (verify_totp x cfg user_id request.code request.ip_address request.now) _ s reply
            rest in
        (
          u,
          shown,
          verify_totp_accepts x request.code request.ip_address db u b found cfg request.now
              (rw (sym own, sym still) (ap (λ r. r.0) checked)),
          grant_ok s2 user_id u reply granted,
        )

    -- A full token for a backup code is one for the active account of the pending token, with TOTP and
    -- with this code among its own.
    pub mfa_backup_verify_sound :
        (db : Db) (reply : StepUpResponse)
        → (get_session
            (mfa_backup_verify x cfg keys write_token device_token device_id request)
            db).0
          ≡ ok reply
        → (u : User) × IsPending db u
          × ShowsBackup x request.code u
          × (reply.access_token ≡ write_token u)
    unfolding mfa_backup_verify
    mfa_backup_verify_sound db reply done =
        let ((user_id, u), s, ran, rest) =
          bind_ok pending _ (open_session db) reply
            (let_in request.within_limit _ _ (open_session db) reply done) in
        let (own, shown) = pending_user_ok (open_session db) user_id u (ap (λ r. r.0) ran) in
        let (payload, sub, read, named, parsed, found, active) = shown in
        let still = sym (ap (λ r. r.1) ran) ∙ pending_user_still (open_session db) in
        let (b, s2, checked, granted) =
          bind_ok (verify_backup_code x user_id request.code request.ip_address) _ s reply rest in
        (
          u,
          shown,
          verify_backup_code_accepts x request.code request.ip_address db u b found
              (rw (sym own, sym still) (ap (λ r. r.0) checked)),
          grant_ok s2 user_id u reply granted,
        )
