-- ===== src/StepUp/Complete.antt =====
-- app/api/v1/auth.py: the step-up that a login with a pending token asks for succeeds.
use lite_iam.Devices.{is_match}
use lite_iam.Devices.Trust.{find-snoc}
use lite_iam.Database.{ok, Db, Result, get_session, get_user, Session, open_session, settle}
use lite_iam.Prelude.{
  ℕ, Text, ◌≡◌, refl, true, Option, none, some, inl, inr, if◌then◌else◌, suc, is_some, find, [],
  Bool-cases, arith,
}
use lite_iam.External.{External}
use lite_iam.Settings.{Settings}
use lite_iam.Tokens.{Keys, Stamp, write_mfa_pending_token, decode_token, pending_payload}
use lite_iam.Models.{User}
use lite_iam.StepUp.{
  StepUpRequest, totp_verify, pending_user, StepUpResponse, grant, read_mfa_pending_token,
}
use lite_iam.Mfa.Totp.Accepts.{IsRight, verify_totp_completes}
use lite_iam.Tokens.Stages.{read-pending}

module _ (x : External) (cfg : Settings) (keys : Keys) (write_token : User → Text)
    (device_token : Text) (device_id : ℕ) (request : StepUpRequest) where
  abbrev pub run : Db → Result StepUpResponse × Db
  run db = get_session (totp_verify x cfg keys write_token device_token device_id request) db

  abbrev pub cookie : Option Text
  cookie = if request.remember_device then some device_token else none

  -- The account of a pending token that the service wrote.
  pending_user_completes :
      (stamp : Stamp) (s : Session) (u : User) (t : ℕ)
      → request.pending_token ≡ suc t
      → read_mfa_pending_token x keys request.now (suc t)
        ≡ some (pending_payload x cfg keys stamp u)
      → x.as_uuid (x.str_uuid u.id) ≡ some u.id
      → get_user u.id s.live ≡ some u
      → u.is_active ≡ true
      → pending_user x cfg keys write_token device_token device_id request s ≡ (ok (u.id, u), s)
  unfolding pending_user
  pending_user_completes stamp s u t presented read parsed found active = ground arith

  -- The full token is written whatever the tables are.
  grant_completes :
      (s : Session) (u : User)
      → let (reply, s') = grant x cfg keys write_token device_token device_id request u.id u s in
        (reply ≡ ok (record { access_token = write_token u; device_token = cookie }))
        × (request.remember_device ≡ true
            → is_some (find (is_match x u.id device_token request.now) (settle reply s').devices)
              ≡ true)
  unfolding grant
  grant_completes s u =
      let own = find-snoc (is_match x u.id device_token request.now) s.live.devices in
      elim (Bool-cases request.remember_device) [
        | inl kept ↦ rw kept (refl, λ same. rw own (ground arith))
        | inr left ↦ rw left (refl, λ same. absurd (ground arith))
      ]

  pub pending_token_completes :
      (stamp : Stamp) (db : Db) (u : User) (t : ℕ)
      → request.within_limit ≡ true
      → request.pending_token ≡ suc t
      → write_mfa_pending_token x cfg keys stamp u ≡ suc t
      → decode_token x keys true request.now (suc t) ≡ some (pending_payload x cfg keys stamp u)
      → x.as_uuid (x.str_uuid u.id) ≡ some u.id
      → get_user u.id db ≡ some u
      → u.is_active ≡ true
      → IsRight x cfg request.code request.now u
      → ((run db).0 ≡ ok (record { access_token = write_token u; device_token = cookie }))
        × (request.remember_device ≡ true
            → is_some (find (is_match x u.id device_token request.now) (run db).1.devices) ≡ true)
  unfolding totp_verify pending_user grant
  pending_token_completes stamp db u t allowed presented written accepted parsed found active
        right =
      let (s, checked) =
        verify_totp_completes x request.code request.ip_address db u true found cfg request.now
          right in
      let (none_read, read) =
        read-pending x cfg keys stamp request.now u [] (suc t) db written accepted in
      rw
        (
          allowed,
          pending_user_completes stamp (open_session db) u t presented read parsed found active,
          checked,
        )
        (grant_completes s u)
