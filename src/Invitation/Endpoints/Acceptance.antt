-- ===== src/Invitation/Endpoints/Acceptance.antt =====
-- app/api/v1/invitations.py: what joining with an invitation took.
use lite_iam.Invitation.Lifecycle.{accepted_unmatched}
use lite_iam.Prelude.{
  ℕ, Text, ◌≡◌, ◌≤◌, count_where, ◌==◌, refl, none, some, inl, inr, Option-cases, arith,
}
use lite_iam.Invitation.Endpoints.{accept_invite, User}
use lite_iam.Models.{UserInvitation}
use lite_iam.Invitation.{verify_invitation, accept_invitation, External, Handler, find, is_match}
use lite_iam.Database.{Db, Session, get_session, ok, open_session}
use lite_iam.Database.Runs.{Result-cases}
use lite_iam.Invitation.Lifecycle.{accepted_unmatched}

-- If joining with an invitation returns, then a pending invitation of the address with the token's
-- hash was found that had not expired; the account was made in the tenant of that invitation, the
-- reply gives its role, and the token verifies at no later time. Conditions: at most one row has
-- the token's hash, and making the account leaves the invitations alone.
pub accept_invite_sound :
    (x : External) (create : Text → Text → ℕ → Handler User) (token email password : Text) (now : ℕ)
    (db : Db) (user : User) (role : Text) (later : ℕ)
    → ((tenant_id : ℕ) (s : Session)
        → (create email password tenant_id s).1.live.invitations ≡ s.live.invitations)
    → count_where (λ i. i.token_hash == x.sha256 token) db.invitations ≤ 1
    → (get_session (accept_invite x create token email password now) db).0 ≡ ok (user, role)
    → (inv : UserInvitation) × (find (is_match x token email now) db.invitations ≡ some inv)
      × (role ≡ inv.role)
      × ((create email password inv.tenant_id (open_session db)).0 ≡ ok user)
      × (get_session
            (verify_invitation x token email later)
            (get_session (accept_invite x create token email password now) db).1
          ≡ (ok none, (get_session (accept_invite x create token email password now) db).1))
unfolding accept_invite verify_invitation accept_invitation
accept_invite_sound x create token email password now db user role later keeps unique done =
    elim (Option-cases (find (is_match x token email now) db.invitations)) [
      | inl unknown ↦ absurd (ground arith)
      | inr (inv, found) ↦
          elim (Result-cases (create email password inv.tenant_id (open_session db)).0) [
            | inr (e, refused) ↦ absurd (ground arith)
            | inl (u, created) ↦
                let rows = keeps inv.tenant_id (open_session db) in
                let unmatched =
                  accepted_unmatched x token email now now later inv db.invitations found unique in
                (inv, found, ground arith, ground arith, rw (found, created, rows, unmatched) refl)
          ]
    ]
