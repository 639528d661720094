-- ===== src/Pat/Tests.antt =====
-- Ada's tokens: one that expires at 500, and one that never does.
use lite_iam.Prelude.{
  ℕ, ◌<◌, ◌≡◌, refl, true, none, some, [], ◌∷◌, find, ltb, if◌then◌else◌, ◌+◌, ◌*◌,
}
use lite_iam.Literals
use lite_iam.Pat.Quota.{create_then_dispatch}
use lite_iam.Pat.Endpoints.{create_token, list_tokens, is_subset, TokenCreate}
use lite_iam.Pat.Access.{Request, require_scopes, current_user_or_pat, state_after}
use lite_iam.Pat.Scopes.{endpoint_user, scoped_endpoint_sound}
use lite_iam.Models.{PersonalAccessToken}
use lite_iam.Database.{Db, get_session, ok}
use lite_iam.Fixtures.{plain, ada, with_user}
use lite_iam.Pat.{refused, passed, is_valid, dispatch_pat}
use lite_iam.Tokens.{Keys}

abbrev dated : PersonalAccessToken
dated = record {
  id = 61;
  user_id = 1;
  tenant_id = 3;
  name = 62;
  token_hash = 63;
  scopes = 64 ∷ [];
  expires_at = some 500;
  is_active = true;
}

abbrev lasting : PersonalAccessToken
lasting = record dated { id = 65; token_hash = 66; expires_at = none }

abbrev tables : Db
tables = record (with_user ada) { pats = dated ∷ lasting ∷ [] }

abbrev asked : TokenCreate
asked = record { name = 62; scopes = Literals.api_read ∷ []; expires_in_days = some 1 }

created_once : (get_session (create_token plain ada asked 68 67 100) tables).0 ≡ ok 68
unfolding create_token
created_once = refl

create_then_dispatch_example :
    let db' = (get_session (create_token plain ada asked 68 67 100) tables).1 in
    dispatch_pat plain 200 68 db'
    ≡ (if ltb 200 (100 + 1 * 86400) then passed ada asked.scopes 67 else refused)
create_then_dispatch_example =
    create_then_dispatch plain ada asked 68 67 100 200 1 tables created_once refl refl refl

abbrev keys : Keys
keys = record { kid = 1; private_pem = 8; public_pems = [] }

abbrev stated : Request
stated = record { pat_user = some ada; pat_scopes = some (64 ∷ []); bearer = none }

enters : endpoint_user plain keys [] 100 63 none tables (64 ∷ []) stated ≡ ok ada
unfolding require_scopes current_user_or_pat
enters = refl

passed_on : state_after (dispatch_pat plain 100 63 tables) none ≡ some stated
unfolding dispatch_pat
passed_on = refl

scoped_endpoint_sound_example :
    (pat : PersonalAccessToken) × (at : ℕ) × (find (is_valid 63 100) tables.pats ≡ some pat)
    × (pat.is_active ≡ true)
    × (pat.expires_at ≡ some at)
    × (100 < at)
    × (1 ≡ pat.user_id)
    × (ada.is_active ≡ true)
    × (is_subset (64 ∷ []) pat.scopes ≡ true)
scoped_endpoint_sound_example =
    scoped_endpoint_sound plain keys [] 100 63 none tables (64 ∷ []) stated ada passed_on enters

lists_both : (get_session (list_tokens ada) tables).0 ≡ ok (dated ∷ lasting ∷ [])
unfolding list_tokens
lists_both = refl
