-- ===== src/Devices/Trust.antt =====
-- Who is trusted after a device is created or revoked.
use lite_iam.Prelude.{
  ap, count_where, ℕ, Text, ◌+◌, ◌≡◌, ◌≢◌, refl, Bool, false, ◌&&◌, List, [], ◌∷◌, ◌++◌, arith, ltb,
  ◌==◌, find, delete_where, is_some, ◌||◌,
}
use lite_iam.Models.{TrustedDevice}
use lite_iam.External.{External}
use lite_iam.Database.{Db, ok, get_session}
use lite_iam.Devices.{
  device_ttl, is_match, create_trusted_device, revoke_all_trusted_devices, revoke_device_by_id,
}

-- Whether a cookie makes a user trusted.
abbrev pub trusts : External → ℕ → Text → ℕ → Db → Bool
trusts x user_id cookie now db = is_some (find (is_match x user_id cookie now) db.devices)

pub find-snoc :
    (p : TrustedDevice → Bool) (ds : List TrustedDevice) (d : TrustedDevice)
    → is_some (find p (ds ++ d ∷ [])) ≡ (is_some (find p ds) || p d)
find-snoc p [] d = ground arith
find-snoc p (e ∷ ds) d = ground (arith, find-snoc p ds d)

-- No device of a user is left that a cookie matches.
find-delete_user :
    (x : External) (user_id : ℕ) (cookie : Text) (now : ℕ) (ds : List TrustedDevice)
    → is_some (find (is_match x user_id cookie now) (delete_where (λ d. d.user_id == user_id) ds))
      ≡ false
find-delete_user x user_id cookie now [] = refl
find-delete_user x user_id cookie now (d ∷ ds) =
    ground (arith, find-delete_user x user_id cookie now ds)

find-delete_other :
    (x : External) (user_id other : ℕ) (cookie : Text) (now : ℕ) (ds : List TrustedDevice)
    → other ≢ user_id
    → is_some (find (is_match x other cookie now) (delete_where (λ d. d.user_id == user_id) ds))
      ≡ is_some (find (is_match x other cookie now) ds)
find-delete_other x user_id other cookie now [] ne = refl
find-delete_other x user_id other cookie now (d ∷ ds) ne =
    ground (arith, find-delete_other x user_id other cookie now ds ne)

-- Creating a trusted device replies with its cookie, makes its user trusted with that cookie for
-- thirty days from then and no longer, unless the user was trusted with it before, and changes the
-- trust in no other user.
pub create_trusts :
    (x : External) (user_id tenant_id : ℕ) (token : Text) (id now later : ℕ) (db : Db)
    → let (reply, db') = get_session (create_trusted_device x user_id tenant_id token id now) db in
      (reply ≡ ok token)
      × (trusts x user_id token later db'
          ≡ (trusts x user_id token later db || ltb later (now + device_ttl)))
      × ((other : ℕ) (cookie : Text)
          → other ≢ user_id
          → trusts x other cookie later db' ≡ trusts x other cookie later db)
unfolding create_trusted_device
create_trusts x user_id tenant_id token id now later db =
    (refl, rw find-snoc (ground arith), λ other cookie ne. rw find-snoc (ground arith))

-- After all devices of a user were revoked, no cookie makes the user trusted at any time, and the
-- trust in no other user has changed.
pub revoke_all_untrusts :
    (x : External) (user_id later : ℕ) (cookie : Text) (db : Db)
    → let db' = (get_session (revoke_all_trusted_devices user_id) db).1 in
      (trusts x user_id cookie later db' ≡ false)
      × ((other : ℕ)
          → other ≢ user_id
          → trusts x other cookie later db' ≡ trusts x other cookie later db)
unfolding revoke_all_trusted_devices
revoke_all_untrusts x user_id later cookie db = (
  find-delete_user x user_id cookie later db.devices,
  λ other ne. find-delete_other x user_id other cookie later db.devices ne,
)

-- A device with this id of this user.
abbrev pub is_owned : ℕ → ℕ → TrustedDevice → Bool
is_owned device_id user_id d = (d.id == device_id) && (d.user_id == user_id)

module _ (p : TrustedDevice → Bool) where
  count-find : (ds : List TrustedDevice) → ltb 0 (count_where p ds) ≡ is_some (find p ds)
  count-find [] = ground arith
  count-find (d ∷ ds) = ground (arith, count-find ds)

  find-delete : (ds : List TrustedDevice) → is_some (find p (delete_where p ds)) ≡ false
  find-delete [] = refl
  find-delete (d ∷ ds) = ground (arith, find-delete ds)

find-delete_owned :
    (x : External) (device_id user_id other : ℕ) (cookie : Text) (now : ℕ) (ds : List TrustedDevice)
    → other ≢ user_id
    → is_some (find (is_match x other cookie now) (delete_where (is_owned device_id user_id) ds))
      ≡ is_some (find (is_match x other cookie now) ds)
find-delete_owned x device_id user_id other cookie now [] ne = refl
find-delete_owned x device_id user_id other cookie now (d ∷ ds) ne =
    ground (arith, find-delete_owned x device_id user_id other cookie now ds ne)

-- Revoking one device answers whether the user had a device with this id, leaves the user none with
-- it, and changes the trust in no other user, even where the id is of another user's device.
pub revoke_device_lem :
    (x : External) (device_id user_id later : ℕ) (cookie : Text) (db : Db)
    → let (r, db') = get_session (revoke_device_by_id device_id user_id) db in
      (r ≡ ok (is_some (find (is_owned device_id user_id) db.devices)))
      × (is_some (find (is_owned device_id user_id) db'.devices) ≡ false)
      × ((other : ℕ)
          → other ≢ user_id
          → trusts x other cookie later db' ≡ trusts x other cookie later db)
unfolding revoke_device_by_id
revoke_device_lem x device_id user_id later cookie db = (
  ap ok (count-find (is_owned device_id user_id) db.devices),
  find-delete (is_owned device_id user_id) db.devices,
  λ other ne. find-delete_owned x device_id user_id other cookie later db.devices ne,
)
