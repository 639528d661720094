-- ===== src/Revocation/Cover.antt =====
-- app/tokens/revocation.py: the set of a worker against the table of revoked ids.
use lite_iam.Prelude.{
  refl, ap, eq_of_==, ℕ, Text, ◌<◌, ◌≡◌, true, false, List, [], ◌∷◌, ◌++◌, arith, ltb, leb, ◌==◌,
  contains, map, select_where, delete_where, Bool-cases, inl, inr,
}
use lite_iam.Models.{RevokedToken}
use lite_iam.Revocation.{Worker, is_revoked, load_active, on_revoke, prune_expired, without}

-- Each row of the list that is still in force is in the set.
abbrev pub Covers : ℕ → List RevokedToken → List Text → Type 0
Covers now [] jtis = Unit
Covers now (r ∷ rows) jtis =
    (now < r.expires_at → is_revoked jtis r.jti ≡ true) × Covers now rows jtis

abbrev pub IsCovering : ℕ → Worker → Type 0
IsCovering now w = Covers now w.table w.revoked_jtis

-- The ids that pruning takes out of the set.
abbrev pub jtis_expired : ℕ → List RevokedToken → List Text
jtis_expired now rows = map (λ r. r.jti) (select_where (λ r. leb r.expires_at now) rows)

-- None of the ids stands in a row that is still in force.
abbrev pub Apart : ℕ → List Text → List RevokedToken → Type 0
Apart now gone [] = Unit
Apart now gone (r ∷ rows) = (now < r.expires_at → contains gone r.jti ≡ false) × Apart now gone rows

contains-append_right :
    (xs ys : List Text) (a : Text) → contains ys a ≡ true → contains (xs ++ ys) a ≡ true
contains-append_right [] ys a h = h
contains-append_right (x ∷ xs) ys a h = ground (arith, contains-append_right xs ys a h)

contains-append_left :
    (xs ys : List Text) (a : Text) → contains xs a ≡ true → contains (xs ++ ys) a ≡ true
contains-append_left [] ys a h = cc
contains-append_left (x ∷ xs) ys a h = ground (arith, contains-append_left xs ys a)

contains-without :
    (gone jtis : List Text) (a : Text)
    → contains gone a ≡ false
    → contains jtis a ≡ true
    → contains (without gone jtis) a ≡ true
contains-without gone [] a kept h = cc
contains-without gone (j ∷ jtis) a kept h = elim (Bool-cases (a == j)) [
  | inl same ↦ ground (arith, contains-without gone jtis a kept)
  | inr other ↦ ground (arith, contains-without gone jtis a kept)
]

Covers-weaken :
    (now : ℕ) (rows : List RevokedToken) (xs ys : List Text)
    → Covers now rows ys
    → Covers now rows (xs ++ ys)
unfolding is_revoked
Covers-weaken now [] xs ys h = tt
Covers-weaken now (r ∷ rows) xs ys h =
    (λ live. contains-append_right xs ys r.jti (h.0 live), Covers-weaken now rows xs ys h.1)

Covers-load :
    (now : ℕ) (rows : List RevokedToken) (jtis : List Text)
    → Covers now rows (map (λ r. r.jti) (select_where (λ r. ltb now r.expires_at) rows) ++ jtis)
unfolding is_revoked
Covers-load now [] jtis = tt
Covers-load now (r ∷ rows) jtis = elim (Bool-cases (ltb now r.expires_at)) [
  | inl live ↦
      rw live (λ h. ground arith, Covers-weaken now rows (r.jti ∷ []) _ (Covers-load now rows jtis))
  | inr dead ↦ rw dead (λ h. absurd (ground arith), Covers-load now rows jtis)
]

-- Start-up covers the table, whatever the set held before.
pub load_active-IsCovering : (now : ℕ) (w : Worker) → IsCovering now (load_active now w)
unfolding load_active
load_active-IsCovering now w = Covers-load now w.table w.revoked_jtis

Covers-snoc :
    (now : ℕ) (rows : List RevokedToken) (row : RevokedToken) (jtis : List Text)
    → Covers now rows jtis
    → is_revoked jtis row.jti ≡ true
    → Covers now (rows ++ row ∷ []) jtis
Covers-snoc now [] row jtis h here = (λ live. here, tt)
Covers-snoc now (r ∷ rows) row jtis h here = (h.0, Covers-snoc now rows row jtis h.1 here)

Covers-without :
    (now : ℕ) (gone : List Text) (rows : List RevokedToken) (jtis : List Text)
    → Apart now gone rows
    → Covers now rows jtis
    → Covers now rows (without gone jtis)
unfolding is_revoked
Covers-without now gone [] jtis apart h = tt
Covers-without now gone (r ∷ rows) jtis apart h = (
  λ later. contains-without gone jtis r.jti (apart.0 later) (h.0 later),
  Covers-without now gone rows jtis apart.1 h.1,
)

Covers-prune :
    (now : ℕ) (gone : List Text) (rows : List RevokedToken) (jtis : List Text)
    → Apart now gone rows
    → Covers now rows jtis
    → Covers now (delete_where (λ r. leb r.expires_at now) rows) (without gone jtis)
unfolding is_revoked
Covers-prune now gone [] jtis apart h = tt
Covers-prune now gone (r ∷ rows) jtis apart h = elim (Bool-cases (leb r.expires_at now)) [
  | inl dead ↦ rw dead (Covers-prune now gone rows jtis apart.1 h.1)
  | inr live ↦ rw live (
    λ later. contains-without gone jtis r.jti (apart.0 later) (h.0 later),
    Covers-prune now gone rows jtis apart.1 h.1,
  )
]

-- A worker whose set has every id that its table revokes and that has not expired is still such a
-- worker after it has heard of a revocation, whose id it then refuses.
pub on_revoke-IsCovering :
    (now : ℕ) (w : Worker) (row : RevokedToken)
    → IsCovering now w
    → IsCovering now (on_revoke row w) × (is_revoked (on_revoke row w).revoked_jtis row.jti ≡ true)
unfolding on_revoke is_revoked
on_revoke-IsCovering now w row h = (
  Covers-snoc now w.table row (row.jti ∷ w.revoked_jtis)
      (Covers-weaken now w.table (row.jti ∷ []) w.revoked_jtis h)
      (unfold is_revoked in ground arith),
  ground arith,
)

-- The set that pruning leaves has no id of an expired row.
without-none :
    (gone jtis : List Text) (a : Text)
    → contains gone a ≡ true
    → contains (without gone jtis) a ≡ false
without-none gone [] a h = refl
without-none gone (j ∷ jtis) a h = elim (Bool-cases (contains gone j)) [
  | inl taken ↦ rw taken (without-none gone jtis a h)
  | inr kept ↦ elim (Bool-cases (a == j)) [
    | inl same ↦ absurd (ground (arith, ap (contains gone) (eq_of_== a j same)))
    | inr other ↦ rw (kept, other) (without-none gone jtis a h)
  ]
]

delete-select :
    (now : ℕ) (rows : List RevokedToken)
    → delete_where (λ r. leb r.expires_at now) rows ≡ select_where (λ r. ltb now r.expires_at) rows
delete-select now [] = refl
delete-select now (r ∷ rows) = ground (arith, delete-select now rows)

-- The hourly pruning takes the expired rows out of the table, and no other, and out of the worker's
-- set each of their ids, but none that a row revokes which has not expired, neither one of the
-- table before nor of the table that is left. Conditions: the set had every such id before, and no
-- id stands in an expired row and in another one that is in force.
pub prune_expired-IsCovering :
    (now : ℕ) (w : Worker)
    → IsCovering now w
    → Apart now (jtis_expired now w.table) w.table
    → let w' = prune_expired now w in
      IsCovering now w'
      × Covers now w.table w'.revoked_jtis
      × (w'.table ≡ select_where (λ r. ltb now r.expires_at) w.table)
      × ((jti : Text)
          → contains (jtis_expired now w.table) jti ≡ true
          → is_revoked w'.revoked_jtis jti ≡ false)
unfolding prune_expired is_revoked
prune_expired-IsCovering now w h apart =
    let gone = jtis_expired now w.table in
    (
      Covers-prune now gone w.table w.revoked_jtis apart h,
      Covers-without now gone w.table w.revoked_jtis apart h,
      delete-select now w.table,
      without-none gone w.revoked_jtis,
    )
