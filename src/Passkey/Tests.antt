-- ===== src/Passkey/Tests.antt =====
-- Ada registers the credential 61 with the challenge 62.
use lite_iam.Prelude.{◌≡◌, none, some, arith, ◌+◌}
use lite_iam.Fixtures.{plain, ada, with_user}
use lite_iam.Database.{Db, err, Error, get_session}
use lite_iam.Passkey.{
  Webauthn, Registration, passkey_authenticate_complete, complete_registration, begin_registration,
}
use lite_iam.Passkey.Unique.{
  Steps-AreUnique, authentication_refused, AreUnique, next, here, begins_registration,
  completes_registration,
}

abbrev key : Registration
key = record { credential_id = 61; credential_public_key = 63; sign_count = 0; aaguid = none }

abbrev browser : Webauthn
browser = record {
  registration_options = λ user challenge. challenge;
  authentication_options = λ challenge ids. challenge;
  registration_credential = λ json. some json;
  authentication_credential = λ json. some json;
  raw_id = λ credential. credential;
  verify_registration = λ credential challenge. some key;
  verify_authentication = λ credential challenge public_key sign_count. some 1;
}

abbrev begun : Db
begun = (get_session (begin_registration browser ada 62 7 100) (with_user ada)).1

abbrev ended : Db
ended = (get_session (complete_registration browser ada 61 none 8 160) begun).1

Steps-AreUnique_example : AreUnique ended
Steps-AreUnique_example =
    Steps-AreUnique browser {db = with_user ada} {db' = ended} (λ c. omega arith)
      (next (next here (begins_registration ada 62 7 100))
        (completes_registration ada 61 none 8 160))

authentication_refused_example :
    (e : Error) × (get_session
        (passkey_authenticate_complete plain browser (λ u. 500 + u.id) 61 (some 1) 160)
        ended
      ≡ (err e, ended))
authentication_refused_example =
    authentication_refused browser plain (λ u. 500 + u.id) 61 (some 1) 160 ended

-- The library as it is pinned.
abbrev pinned : Webauthn
pinned = record browser { registration_credential = λ json. none }

abbrev begun_pinned : Db
begun_pinned = (get_session (begin_registration pinned ada 62 7 100) (with_user ada)).1

abbrev ended_pinned : Db
ended_pinned = (get_session (complete_registration pinned ada 61 none 8 160) begun_pinned).1
