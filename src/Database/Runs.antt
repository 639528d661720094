-- ===== src/Database/Runs.antt =====
-- Lemmas about rows found by a query, and about the same query after an update.
use lite_iam.Prelude.{
  none, refl, ◌⊎◌, Bool-cases, inl, inr, if◌then◌else◌, ◌++◌, ℕ, Bool, true, ◌≡◌, ap, some, List,
  [], ◌∷◌, arith, ◌==◌, find, update_where, delete_where, Option, false,
}
use lite_iam.Models.{User}
use lite_iam.Database.State.{
  Db, Error, Result, ok, err, Handler, Session, ◌>>=◌, raise_if, or_raise, ◌>>◌,
}
use lite_iam.Database.Queries.{get_user}

module _ {A : Type 0} where
  -- The row that a query finds passes its test.
  pub find_holds : (p : A → Bool) (xs : List A) (x : A) → find p xs ≡ some x → p x ≡ true
  find_holds p [] x e = ground arith
  find_holds p (y ∷ xs) x e = ground (arith, find_holds p xs x)

  -- An update that keeps a row's test is seen by the same query.
  pub find-update_where :
      (p : A → Bool) (f : A → A) (xs : List A) (x : A)
      → ((a : A) → p (f a) ≡ p a)
      → find p xs ≡ some x
      → find p (update_where p f xs) ≡ some (f x)
  find-update_where p f [] x keep e = ground arith
  find-update_where p f (y ∷ xs) x keep e = ground (arith, keep y, find-update_where p f xs x keep)

  -- The same where the update has another test.
  pub find-update_other :
      (q p : A → Bool) (f : A → A) (xs : List A) (x : A)
      → ((a : A) → q (f a) ≡ q a)
      → find q xs ≡ some x
      → find q (update_where p f xs) ≡ some (if p x then f x else x)
  find-update_other q p f [] x keep e = ground arith
  find-update_other q p f (y ∷ xs) x keep e = elim (Bool-cases (q y)) [
    | inl here ↦ elim (Bool-cases (p y)) [
      | inl changed ↦ ground (arith, keep y)
      | inr left ↦ ground arith
    ]
    | inr later ↦ elim (Bool-cases (p y)) [
      | inl changed ↦ ground (arith, keep y, find-update_other q p f xs x keep)
      | inr left ↦ ground (arith, find-update_other q p f xs x keep)
    ]
  ]

  pub find-append :
      (q : A → Bool) (xs ys : List A) (x : A) → find q xs ≡ some x → find q (xs ++ ys) ≡ some x
  find-append q [] ys x e = ground arith
  find-append q (y ∷ xs) ys x e = ground (arith, find-append q xs ys x)

  pub find-append_none :
      (q : A → Bool) (xs ys : List A) → find q xs ≡ none → find q (xs ++ ys) ≡ find q ys
  find-append_none q [] ys e = refl
  find-append_none q (y ∷ xs) ys e = ground (arith, find-append_none q xs ys)

  pub find-update_none :
      (q p : A → Bool) (f : A → A) (xs : List A)
      → ((a : A) → q (f a) ≡ q a)
      → find q xs ≡ none
      → find q (update_where p f xs) ≡ none
  find-update_none q p f [] keep e = refl
  find-update_none q p f (y ∷ xs) keep e = ground (arith, keep y, find-update_none q p f xs keep)

  -- After a DELETE the same query finds nothing, and no other finds what it did not find.
  pub find-delete_where : (p : A → Bool) (xs : List A) → find p (delete_where p xs) ≡ none
  find-delete_where p [] = refl
  find-delete_where p (y ∷ xs) = ground (arith, find-delete_where p xs)

  pub find-delete_none :
      (q p : A → Bool) (xs : List A) → find q xs ≡ none → find q (delete_where p xs) ≡ none
  find-delete_none q p [] e = refl
  find-delete_none q p (y ∷ xs) e = ground (arith, find-delete_none q p xs)

-- To split on how a handler ended.
pub Result-cases :
    {A : Type 0} (r : Result A) → ((a : A) × (r ≡ ok a)) ⊎ ((e : Error) × (r ≡ err e))
Result-cases (ok a) = inl (a, refl)
Result-cases (err e) = inr (e, refl)

-- A sequence that returned: what its first part returned, and what the second did from there.
pub bind_ok :
    {A B : Type 0} (m : Handler A) (f : A → Handler B) (s : Session) (b : B)
    → ((m >>= f) s).0 ≡ ok b
    → (a : A) × (s' : Session) × (m s ≡ (ok a, s')) × ((f a s').0 ≡ ok b)
bind_ok m f s b done = elim (Result-cases (m s).0) [
  | inl (a, ran) ↦ (a, (m s).1, ground arith, ground arith)
  | inr (e, failed) ↦ absurd (ground arith)
]

-- A guard that let a handler return.
pub raise_if_ok :
    {A : Type 0} (b : Bool) (e : Error) (m : Handler A) (s : Session) (a : A)
    → ((raise_if b e >> m) s).0 ≡ ok a
    → (b ≡ false) × ((m s).0 ≡ ok a)
raise_if_ok true e m s a done = cc
raise_if_ok false e m s a done = (refl, done)

pub or_raise_ok :
    {A : Type 0} (o : Option A) (e : Error) (s : Session) (a : A)
    → (or_raise o e s).0 ≡ ok a
    → o ≡ some a
or_raise_ok none e s a done = cc
or_raise_ok (some b) e s a done = ground arith

-- The row of a user after its update, for updates that keep the key.
pub get_user-update :
    (f : User → User) (user_id : ℕ) (users : List User) (u : User)
    → ((a : User) → (f a).id ≡ a.id)
    → find (λ v. v.id == user_id) users ≡ some u
    → find (λ v. v.id == user_id) (update_where (λ v. v.id == user_id) f users) ≡ some (f u)
get_user-update f user_id users u keep found =
    find-update_where (λ v. v.id == user_id) f users u (λ a. ap (λ n. n == user_id) (keep a)) found

-- A row found by its key has that key.
pub get_user_id : (user_id : ℕ) (db : Db) (u : User) → get_user user_id db ≡ some u → u.id ≡ user_id
get_user_id user_id db u found = ground (arith, find_holds (λ v. v.id == user_id) db.users u found)
