-- ===== src/Database/Hoare.antt =====
-- Pre- and postconditions of handlers, for a return and for an exception.
use lite_iam.Prelude.{◌≡◌}
use lite_iam.Database.State.{Session, Handler, Result, ok, err, ◌>>=◌, continue}

-- What holds at the end: `K` of the value and the session, or `E` of the session of a raise.
abbrev pub Ended :
    {A : Type 0} → (A → Session → Type 0) → (Session → Type 0) → Result A × Session → Type 0
Ended K E (ok a, s) = K a s
Ended K E (err e, s) = E s

-- From every session with `I` the handler ends so.
pub record Ends {A : Type 0} (I : Session → Type 0) (K : A → Session → Type 0)
    (E : Session → Type 0) (m : Handler A) : Type 0 where
  pub at : (s : Session) → I s → Ended K E (m s)

module _ {A B : Type 0} {J : A → Session → Type 0} {K : B → Session → Type 0}
    {E : Session → Type 0} where
  Ended-continue :
      (r : Result A) (f : A → Handler B) (s : Session)
      → Ended J E (r, s)
      → ((a : A) → Ends (J a) K E (f a))
      → Ended K E (continue r f s)
  Ended-continue (ok a) f s h k = (k a).at s h
  Ended-continue (err e) f s h k = h

  -- A handler and what follows it.
  pub Ends-bind :
      {I : Session → Type 0} (m : Handler A) (f : A → Handler B)
      → Ends I J E m
      → ((a : A) → Ends (J a) K E (f a))
      → Ends I K E (m >>= f)
  Ends-bind m f h k = record { at = λ s i. Ended-continue (m s).0 f (m s).1 (h.at s i) k }

module _ {A : Type 0} {I J : Session → Type 0} {K : A → Session → Type 0}
    {E : Session → Type 0} where
  -- What the precondition says of the inputs alone is a hypothesis.
  pub Ends-given :
      {P : Type 0} (m : Handler A)
      → ((s : Session) → I s → P × J s)
      → (P → Ends J K E m)
      → Ends I K E m
  Ends-given m split h = record { at = λ s i. let (p, j) = split s i in (h p).at s j }

module _ {A : Type 0} {J K : A → Session → Type 0} where
  weaken :
      (E : Session → Type 0) (r : Result A) (s : Session)
      → ((a : A) (s' : Session) → J a s' → K a s')
      → Ended J E (r, s)
      → Ended K E (r, s)
  weaken E (ok a) s imply h = imply a s h
  weaken E (err e) s imply h = h

  -- A weaker postcondition.
  pub Ends-weaken :
      {I E : Session → Type 0} (m : Handler A)
      → ((a : A) (s : Session) → J a s → K a s)
      → Ends I J E m
      → Ends I K E m
  Ends-weaken {E = E} m imply h = record { at = λ s i. weaken E (m s).0 (m s).1 imply (h.at s i) }

-- The postcondition at a return.
pub Ended-ok :
    {A : Type 0} (K : A → Type 0) (E : Session → Type 0) (r : Result A) (s : Session) (a : A)
    → Ended (λ b s'. K b) E (r, s)
    → r ≡ ok a
    → K a
Ended-ok K E (ok b) s a h e = let same : b ≡ a = cc e in rw⁻¹ same h
Ended-ok K E (err f) s a h e = cc e
