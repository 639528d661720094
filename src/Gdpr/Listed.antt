-- ===== src/Gdpr/Listed.antt =====
-- app/api/v1/gdpr.py: the keys that an export names.
use lite_iam.Prelude.{ℕ, ◌≡◌, refl, List, [], ◌∷◌, select_where, arith}
use lite_iam.Models.{User, PasskeyCredential}
use lite_iam.Database.{Db, ok, get_session}
use lite_iam.Gdpr.{export_my_data, keys_of, Export}

-- An export names no passkey, whatever the user has.
no_key :
    (user_id : ℕ) (passkeys : List PasskeyCredential) → select_where (keys_of user_id) passkeys ≡ []
no_key user_id [] = refl
no_key user_id (p ∷ passkeys) = ground (arith, no_key user_id passkeys)

pub export_without_keys :
    (user : User) (db : Db)
    → (e : Export) × ((get_session (export_my_data user) db).0 ≡ ok e) × (e.security_keys ≡ [])
unfolding export_my_data
export_without_keys user db = (_, refl, no_key user.id db.passkeys)
