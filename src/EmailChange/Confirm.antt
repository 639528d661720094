-- ===== src/EmailChange/Confirm.antt =====
-- app/api/v1/email_change.py: what a confirmation does, and what the lookup finds.
use lite_iam.Prelude.{
  ℕ, Text, ◌≡◌, refl, true, false, not, ◌&&◌, none, some, List, [], ◌∷◌, ◌++◌, arith, ◌==◌, ◌⊎◌,
  Bool-cases, inl, inr,
}
use lite_iam.EmailChange.{
  invalid_token, is_superseded, is_confirmable, new_request, request_email_change, apply_change,
  confirm_email_change, External, EmailChangeRequest, User, find, update_where, is_some,
}
use lite_iam.Database.{Db, get_session, get_user, err, ok, internal}
use lite_iam.Database.Runs.{get_user-update, find-update_where}

module _ (x : External) where
  none_confirmable :
      (user_id : ℕ) (token : Text) (now : ℕ) (rows : List EmailChangeRequest)
      → find (is_confirmable x user_id token now) rows ≡ none
  none_confirmable user_id token now [] = refl
  none_confirmable user_id token now (r ∷ rows) =
      ground (arith, none_confirmable user_id token now rows)

  none_superseded :
      (user_id : ℕ) (rows : List EmailChangeRequest)
      → update_where (is_superseded x user_id) (λ r. record r { is_used = true }) rows ≡ rows
  none_superseded user_id [] = refl
  none_superseded user_id (r ∷ rows) = ground (arith, none_superseded user_id rows)

  -- A request for another address is stored, every earlier one stays as it was, and no token
  -- confirms it at any time, its own neither.
  pub request_never_confirms :
      (user : User) (new_email raw_token token : Text) (id now later : ℕ) (db : Db)
      → (x.strip (x.lower new_email) == x.lower user.email) ≡ false
      → let db' = (get_session (request_email_change x user new_email raw_token id now) db).1 in
        (db'.email_changes
          ≡ db.email_changes
            ++ new_request x user (x.strip (x.lower new_email)) raw_token id now ∷ [])
        × (get_session (confirm_email_change x user token later) db' ≡ (err invalid_token, db'))
  unfolding request_email_change confirm_email_change
  request_never_confirms user new_email raw_token token id now later db differs =
      rw (differs, none_superseded) (refl, rw none_confirmable refl)

  -- The row that is applied gives the account its address, if no other account has it, and is then
  -- marked as used; if another account has the address, nothing changes.
  pub apply_change_lem :
      (user : User) (req : EmailChangeRequest) (db : Db)
      → get_user user.id db ≡ some user
      → find (λ r. r.id == req.id) db.email_changes ≡ some req
      → let (reply, db') = get_session (apply_change x user req) db in
        ((reply ≡ ok req.new_email)
          × (get_user user.id db' ≡ some (record user { email = req.new_email }))
          × (find (λ r. r.id == req.id) db'.email_changes ≡ some (record req { is_used = true })))
        ⊎ ((reply ≡ err internal)
            × (db' ≡ db)
            × (is_some (find (λ u. (u.email == req.new_email) && not (u.id == user.id)) db.users)
                ≡ true))
  unfolding apply_change
  apply_change_lem user req db row stored =
      elim (Bool-cases
        (is_some (find (λ u. (u.email == req.new_email) && not (u.id == user.id)) db.users))) [
          | inl taken ↦ inr (ground arith, ground arith, taken)
          | inr free ↦ inl (
            ground arith,
            ground (
              arith,
              get_user-update (λ u. record u { email = req.new_email }) user.id db.users user
                  (λ a. refl) row,
            ),
            ground (
              arith,
              find-update_where (λ r. r.id == req.id) (λ r. record r { is_used = true })
                  db.email_changes req (λ a. refl) stored,
            ),
          )
        ]
