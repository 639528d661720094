-- ===== src/Passkey/Remove.antt =====
-- app/identity/passkey.py: the removal of a passkey by its owner.
use lite_iam.Prelude.{
  ℕ, ◌≡◌, ◌≢◌, ◌⊎◌, refl, true, [], ◌∷◌, List, is_empty, select_where, update_where, count_where,
  arith, Bool-cases, inl, inr, ◌==◌,
}
use lite_iam.Models.{PasskeyCredential}
use lite_iam.Database.{Db, ok, err, http, get_session}
use lite_iam.Passkey.Keys.{revoke_credential, is_own, is_listed}

abbrev revoked : ℕ → ℕ → List PasskeyCredential → List PasskeyCredential
revoked id user_id = update_where (is_own id user_id) (λ p. record p { is_revoked = true })

is_empty-nil : (passkeys : List PasskeyCredential) → is_empty passkeys ≡ true → passkeys ≡ []
is_empty-nil [] h = refl
is_empty-nil (p ∷ passkeys) h = cc

gone :
    (id user_id : ℕ) (passkeys : List PasskeyCredential)
    → count_where (λ p. p.id == id) (select_where (is_listed user_id) (revoked id user_id passkeys))
      ≡ 0
gone id user_id [] = refl
gone id user_id (p ∷ passkeys) = ground (arith, gone id user_id passkeys)

others_kept :
    (id user_id other : ℕ) (passkeys : List PasskeyCredential)
    → other ≢ user_id
    → select_where (is_listed other) (revoked id user_id passkeys)
      ≡ select_where (is_listed other) passkeys
others_kept id user_id other [] apart = refl
others_kept id user_id other (p ∷ passkeys) apart =
    ground (arith, others_kept id user_id other passkeys)

-- A user either has no passkey of the id, and the reply is 404 and nothing changes, or the reply is
-- positive, the user lists no passkey of the id any more, and every other user lists what it listed.
pub revoke_credential_lem :
    (id user_id other : ℕ) (db : Db)
    → other ≢ user_id
    → let (reply, db') = get_session (revoke_credential id user_id) db in
      ((select_where (is_own id user_id) db.passkeys ≡ [])
        × (reply ≡ err (http 404 "Credential not found"))
        × (db' ≡ db))
      ⊎ ((reply ≡ ok tt)
          × (count_where (λ p. p.id == id) (select_where (is_listed user_id) db'.passkeys) ≡ 0)
          × (select_where (is_listed other) db'.passkeys
              ≡ select_where (is_listed other) db.passkeys))
unfolding revoke_credential
revoke_credential_lem id user_id other db apart =
    elim (Bool-cases (is_empty (select_where (is_own id user_id) db.passkeys))) [
      | inl unowned ↦ inl (
        is_empty-nil (select_where (is_own id user_id) db.passkeys) unowned,
        rw unowned refl,
        rw unowned refl,
      )
      | inr owned ↦ inr (
        rw owned refl,
        rw owned (gone id user_id db.passkeys),
        rw owned (others_kept id user_id other db.passkeys apart),
      )
    ]
