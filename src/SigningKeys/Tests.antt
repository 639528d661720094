-- ===== src/SigningKeys/Tests.antt =====
-- A worker with the key 1, whose row expires at 500, and a rotation to the key 2.
use lite_iam.Prelude.{◌≡◌, refl, true, none, some, [], ◌∷◌, arith}
use lite_iam.Fixtures.{plain, no_rows}
use lite_iam.Database.{Db, get_session, ok}
use lite_iam.Models.{SigningKey}
use lite_iam.SigningKeys.{FreshKey, KeyManager, initialize, maybe_rotate, get_public_pem_by_kid}
use lite_iam.Tokens.{decode_token}
use lite_iam.SigningKeys.Rotation.{
  keys_of, restart_then_check, HasRotated, marks, rotation_keeps_tokens,
}

abbrev old_key : SigningKey
old_key = record {
  kid = 1;
  private_key_enc = 8;
  public_key_pem = 9;
  is_current = true;
  expires_at = 500;
}

abbrev drawn : FreshKey
drawn = record { kid = 2; private_pem = 18; public_pem = 19 }

abbrev tables : Db
tables = record no_rows { signing_keys = old_key ∷ [] }

abbrev worker : KeyManager
worker = record {
  current = some (record { kid = 1; private_pem = 8 });
  valid_jwks = (record { kid = 1; public_pem = 9 }) ∷ [];
  public_pems = (1, 9) ∷ [];
}

-- Every token has the kid 1 and decodes to nothing more than its signature says.
rotation_keeps_tokens_example :
    decode_token plain
      (keys_of
        (record { kid = 2; private_pem = 18 })
        (maybe_rotate plain 90 100 drawn worker tables).0)
      true
      160
      77
    ≡ decode_token plain (keys_of (record { kid = 1; private_pem = 8 }) worker) true 160 77
rotation_keeps_tokens_example =
    rotation_keeps_tokens plain 90 100 drawn worker (record { kid = 1; private_pem = 8 })
      (record { kid = 2; private_pem = 18 }) true 160 77 1 tables refl (λ same. ground arith)

-- The worker after a restart at 600.
abbrev restarted : KeyManager
restarted = record worker { valid_jwks = []; public_pems = [] }

starts : (get_session (initialize plain 90 600 drawn) tables).0 ≡ ok restarted
unfolding initialize
starts = refl

restart_then_check_example :
    let checked = maybe_rotate plain 90 601 drawn restarted tables in
    (get_public_pem_by_kid 1 restarted ≡ none)
    × HasRotated plain 90 drawn 601 tables checked
    × (marks checked.1 ≡ 2)
unfolding initialize
restart_then_check_example =
    restart_then_check plain 90 600 601 drawn restarted old_key tables refl refl (omega arith) refl
      (omega arith) refl starts
