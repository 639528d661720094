-- ===== src/Invitation/Lifecycle.antt =====
-- An invitation from its creation to its acceptance.
use lite_iam.Prelude.{
  ap, if◌then◌else◌, ◌⊎◌, ℕ, Text, ◌+◌, ◌≤◌, ◌≡◌, refl, Bool, true, false, ◌&&◌, Option, none, some,
  List, [], ◌∷◌, ◌++◌, arith, ltb, ◌==◌, find, count_where, update_where, delete_where,
  Option-cases, Bool-cases, inl, inr,
}
use lite_iam.Models.{UserInvitation}
use lite_iam.External.{External}
use lite_iam.Database.{Db, ok, get_session}
use lite_iam.Database.Runs.{find-append_none, find_holds}
use lite_iam.Invitation.{
  invitation_ttl, is_pending, is_open_for, new_row, create_invitation, is_match, verify_invitation,
  accept_invitation, revoke_invitation,
}

module _ (p : UserInvitation → Bool) where
  count-none : (rows : List UserInvitation) → find p rows ≡ none → count_where p rows ≡ 0
  count-none [] e = refl
  count-none (r ∷ rows) e = ground (arith, count-none rows)

  count-delete :
      (q : UserInvitation → Bool) (rows : List UserInvitation)
      → count_where p (delete_where q rows) ≤ count_where p rows
  count-delete q [] = omega arith
  count-delete q (r ∷ rows) = ground (arith, count-delete q rows)

  count-delete_found :
      (rows : List UserInvitation) (row : UserInvitation)
      → find p rows ≡ some row
      → count_where p (delete_where (λ i. i.id == row.id) rows) + 1 ≤ count_where p rows
  count-delete_found [] row e = ground arith
  count-delete_found (r ∷ rows) row e =
      ground (arith, count-delete_found rows row, count-delete (λ i. i.id == row.id) rows)

  count-snoc :
      (rows : List UserInvitation) (row : UserInvitation)
      → p row ≡ true
      → count_where p (rows ++ row ∷ []) ≡ count_where p rows + 1
  count-snoc [] row h = ground arith
  count-snoc (r ∷ rows) row h = omega (arith, count-snoc rows row h)

  find-delete :
      (q : UserInvitation → Bool) (rows : List UserInvitation)
      → find p rows ≡ none
      → find p (delete_where q rows) ≡ none
  find-delete q [] e = refl
  find-delete q (r ∷ rows) e = ground (arith, find-delete q rows)

unmatched :
    (x : External) (raw_token email : Text) (now : ℕ) (rows : List UserInvitation)
    → find (λ i. i.token_hash == x.sha256 raw_token) rows ≡ none
    → find (is_match x raw_token email now) rows ≡ none
unmatched x raw_token email now [] e = refl
unmatched x raw_token email now (r ∷ rows) e = ground (arith, unmatched x raw_token email now rows)

abbrev accepted : ℕ → UserInvitation → UserInvitation
accepted at i = record i { accepted_at = some at }

unmatched_after :
    (x : External) (raw_token email : Text) (later at id : ℕ) (rows : List UserInvitation)
    → count_where (λ i. i.token_hash == x.sha256 raw_token) rows ≡ 0
    → find (is_match x raw_token email later) (update_where (λ i. i.id == id) (accepted at) rows)
      ≡ none
unmatched_after x raw_token email later at id [] e = refl
unmatched_after x raw_token email later at id (r ∷ rows) e =
    ground (arith, unmatched_after x raw_token email later at id rows)

matched_count :
    (x : External) (raw_token email : Text) (now : ℕ) (inv : UserInvitation)
    (rows : List UserInvitation)
    → find (is_match x raw_token email now) rows ≡ some inv
    → 1 ≤ count_where (λ i. i.token_hash == x.sha256 raw_token) rows
matched_count x raw_token email now inv [] e = ground arith
matched_count x raw_token email now inv (r ∷ rows) e =
    ground (arith, matched_count x raw_token email now inv rows)

pub accepted_unmatched :
    (x : External) (raw_token email : Text) (now at later : ℕ) (inv : UserInvitation)
    (rows : List UserInvitation)
    → find (is_match x raw_token email now) rows ≡ some inv
    → count_where (λ i. i.token_hash == x.sha256 raw_token) rows ≤ 1
    → find
        (is_match x raw_token email later)
        (update_where (λ i. i.id == inv.id) (accepted at) rows)
      ≡ none
accepted_unmatched x raw_token email now at later inv [] e unique = refl
accepted_unmatched x raw_token email now at later inv (r ∷ rows) e unique =
    elim (Bool-cases (r.token_hash == x.sha256 raw_token)) [
      | inl hit ↦ elim (Bool-cases (is_match x raw_token email now r)) [
        | inl here ↦ ground (arith, unmatched_after x raw_token email later at inv.id rows)
        | inr elsewhere ↦ absurd (ground (arith, matched_count x raw_token email now inv rows))
      ]
      | inr miss ↦ ground (arith, accepted_unmatched x raw_token email now at later inv rows)
    ]

-- no row with the id
gone :
    (row : UserInvitation) (id : ℕ) (rows : List UserInvitation)
    → row.id ≡ id
    → find (λ i. i.id == id) (delete_where (λ i. i.id == row.id) rows) ≡ none
gone row id [] same = refl
gone row id (r ∷ rows) same = ground (arith, gone row id rows)

module _ (x : External) (tenant_id : ℕ) (email role : Text) (invited_by_id : Option ℕ)
    (raw_token : Text) (id now : ℕ) (db : Db) where
  -- The tables after a creation.
  abbrev pub created : Db
  created =
      (get_session (create_invitation x tenant_id email role invited_by_id raw_token id now) db).1

  -- If an address had at most one pending invitation to a tenant, then it has exactly one after an
  -- invitation of it to that tenant was created.
  pub one_pending :
      count_where (is_open_for tenant_id (x.lower email)) db.invitations ≤ 1
      → count_where (is_open_for tenant_id (x.lower email)) created.invitations ≡ 1
  unfolding create_invitation
  one_pending one =
      elim (Option-cases (find (is_open_for tenant_id (x.lower email)) db.invitations)) [
        | inl first ↦ rw first (
            ground (
              arith,
              count-snoc (is_open_for tenant_id (x.lower email)) db.invitations
                  (new_row x tenant_id email role invited_by_id raw_token id now),
              count-none (is_open_for tenant_id (x.lower email)) db.invitations first,
            ))
        | inr (row, again) ↦ rw again (
            ground (
              arith,
              count-snoc (is_open_for tenant_id (x.lower email))
                  (delete_where (λ i. i.id == row.id) db.invitations)
                  (new_row x tenant_id email role invited_by_id raw_token id now),
              count-delete_found (is_open_for tenant_id (x.lower email)) db.invitations row again,
            ))
      ]

  -- The token that a creation returns verifies for the invited address as the new row until 72
  -- hours later, and as nothing from then on, if no row stored before has its hash.
  pub create_then_verify :
      (later : ℕ)
      → find (λ i. i.token_hash == x.sha256 raw_token) db.invitations ≡ none
      → (get_session (verify_invitation x raw_token email later) created).0
        ≡ ok (
            if ltb later (now + invitation_ttl)
            then some (new_row x tenant_id email role invited_by_id raw_token id now)
            else none)
  unfolding create_invitation verify_invitation
  create_then_verify later new =
      elim (Option-cases (find (is_open_for tenant_id (x.lower email)) db.invitations)) [
        | inl first ↦
            rw
              (
                first,
                find-append_none (is_match x raw_token email later) db.invitations _
                    (unmatched x raw_token email later db.invitations new),
              )
              (ground arith)
        | inr (row, again) ↦
            rw
              (
                again,
                find-append_none (is_match x raw_token email later)
                    (delete_where (λ i. i.id == row.id) db.invitations) _
                    (find-delete (is_match x raw_token email later) (λ i. i.id == row.id)
                      db.invitations (unmatched x raw_token email later db.invitations new)),
              )
              (ground arith)
      ]

-- An invitation that verified and was then accepted verifies at no later time, if at most one row
-- has the token's hash.
pub accept_once :
    (x : External) (raw_token email : Text) (now at later : ℕ) (inv : UserInvitation) (db : Db)
    → (get_session (verify_invitation x raw_token email now) db).0 ≡ ok (some inv)
    → count_where (λ i. i.token_hash == x.sha256 raw_token) db.invitations ≤ 1
    → let db' = (get_session (accept_invitation inv at) db).1 in
      (get_session (verify_invitation x raw_token email later) db').0 ≡ ok none
unfolding verify_invitation accept_invitation
accept_once x raw_token email now at later inv db verified unique =
    ap ok
      (accepted_unmatched x raw_token email now at later inv db.invitations (ground arith) unique)

-- Revoking leaves no pending invitation with this id at the tenant that it answers for, and adds
-- none; an accepted one, or one of another tenant, is left alone and the answer is no.
pub revoke_invitation_lem :
    (invitation_id tenant_id : ℕ) (db : Db)
    → let (r, db') = get_session (revoke_invitation invitation_id tenant_id) db in
      (r ≡ ok true × (find (λ i. i.id == invitation_id) db'.invitations ≡ none))
      ⊎ (r ≡ ok false
          × (db' ≡ db)
          × (find
                (λ i. (i.id == invitation_id) && (i.tenant_id == tenant_id) && is_pending i)
                db.invitations
              ≡ none))
unfolding revoke_invitation
revoke_invitation_lem invitation_id tenant_id db =
    elim (Option-cases (
      find (λ i. (i.id == invitation_id) && (i.tenant_id == tenant_id) && is_pending i)
        db.invitations)) [
          | inl unknown ↦ inr (ground arith, ground arith, unknown)
          | inr (row, found) ↦ inl (
            ground arith,
            rw found (
                gone row invitation_id db.invitations (
                  ground (
                    arith,
                    find_holds
                        (λ i. (i.id == invitation_id) && (i.tenant_id == tenant_id) && is_pending i)
                        db.invitations row found,
                  ))),
          )
        ]
