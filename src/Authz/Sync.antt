-- ===== src/Authz/Sync.antt =====
-- app/authz/policies.py and watcher.py: the workers' models against the store.
use lite_iam.Prelude.{
  ℕ, Text, Bool, true, false, none, some, ◌==◌, ◌≡◌, inl, inr, refl, arith, Bool-cases,
  Option-cases,
}
use lite_iam.Authz.{
  Rule, Casbin, System, enforce, on_notify, add_policy, remove_policy, assign_role, locked,
  apply_at, answer, permission, grouping,
}
use lite_iam.Database.{err, Error, http}

-- What Casbin documents: a change that it refuses changes nothing.
pub record Refuses {Model Store : Type 0} (c : Casbin Model Store) : Type 0 where
  pub add_refused :
      (r : Rule) (m : Model) (s : Store) → (c.add r m s).0 ≡ false → c.add r m s ≡ (false, m, s)
  pub remove_refused :
      (r : Rule) (m : Model) (s : Store)
      → (c.remove r m s).0 ≡ false
      → c.remove r m s ≡ (false, m, s)

module _ {Model Store : Type 0} (c : Casbin Model Store) where
  pub data Step (s : System Model Store) : System Model Store → Type 0 where
    adds : (w : ℕ) (sub domain obj act : Text) → Step s (add_policy c w sub domain obj act s).1
    removes :
        (w : ℕ) (sub domain obj act : Text) → Step s (remove_policy c w sub domain obj act s).1
    assigns : (w : ℕ) (user role domain : Text) → Step s (assign_role c w user role domain s).1
    hears : (w : ℕ) → Step s (on_notify c w s)

  pub data Steps (s : System Model Store) : System Model Store → Type 0 where
    here : Steps s s
    next : {t u : System Model Store} → Steps s t → Step t u → Steps s u

  -- A worker that has heard of every change has the store's policies.
  abbrev pub IsSynced : System Model Store → Type 0
  IsSynced s =
      (w : ℕ) (m : Model) → s.pending w ≡ false → s.enforcers w ≡ some m → m ≡ c.load s.store

  -- One change, done or refused.
  change-IsSynced :
      (op : Model → Store → Bool × Model × Store) (e : Error) (w : ℕ) (s : System Model Store)
      → ((m : Model) (st : Store) → (op m st).0 ≡ false → op m st ≡ (false, m, st))
      → IsSynced s
      → IsSynced (answer c e (apply_at c (locked c op) w s)).1
  change-IsSynced op e w s law synced = elim (Option-cases (s.enforcers w)) [
    | inl missing ↦ rw missing (λ v m heard has. elim (Bool-cases (v == w)) [
      | inl own ↦ absurd (ground arith)
      | inr other ↦ synced v m heard (ground arith)
    ])
    | inr (m0, has0) ↦ elim (Bool-cases (op m0 s.store).0) [
      | inl done ↦ rw (has0, done) (λ v m heard has. absurd (ground arith))
      | inr refused ↦
          rw (has0, law m0 s.store refused)
            (λ v m heard has. elim (Bool-cases (v == w)) [
              | inl own ↦ synced v m heard (ground arith)
              | inr other ↦ synced v m heard (ground arith)
            ])
    ]
  ]

  module _ (laws : Refuses c) where
    Step-IsSynced : {s t : System Model Store} → Step s t → IsSynced s → IsSynced t
    unfolding add_policy remove_policy assign_role on_notify
    Step-IsSynced {s} (adds w sub domain obj act) synced v m heard has =
        change-IsSynced (c.add (permission sub domain obj act)) (http 409 "Policy already exists") w
          s (laws.add_refused (permission sub domain obj act)) synced v m heard has
    Step-IsSynced {s} (removes w sub domain obj act) synced v m heard has =
        change-IsSynced (c.remove (permission sub domain obj act)) (http 404 "Policy not found") w s
          (laws.remove_refused (permission sub domain obj act)) synced v m heard has
    Step-IsSynced {s} (assigns w user role domain) synced v m heard has =
        change-IsSynced (c.add (grouping user role domain)) (http 409 "Role already assigned") w s
          (laws.add_refused (grouping user role domain)) synced v m heard has
    Step-IsSynced {s} (hears w) synced v m heard has = elim (Bool-cases (v == w)) [
      | inr other ↦ synced v m (ground arith) (ground arith)
      | inl own ↦ elim (Option-cases (s.enforcers w)) [
        | inl missing ↦ absurd (ground arith)
        | inr (m0, has0) ↦ ground arith
      ]
    ]

    pub Steps-IsSynced : {s t : System Model Store} → IsSynced s → Steps s t → IsSynced t
    Steps-IsSynced synced here = synced
    Steps-IsSynced synced (next steps step) = Step-IsSynced step (Steps-IsSynced synced steps)

    -- After any sequence of additions, removals, assignments of roles and heard notifications at
    -- any workers, two workers that have an enforcer and no notification pending decide every
    -- request alike, and as the stored policies say. Conditions: this was so of each worker at the
    -- start, and a change that Casbin refuses changes neither its model nor its store.
    pub workers_agree :
        {s t : System Model Store} (v w : ℕ) (m n : Model) (sub domain obj act : Text)
        → IsSynced s
        → Steps s t
        → t.pending v ≡ false
        → t.pending w ≡ false
        → t.enforcers v ≡ some m
        → t.enforcers w ≡ some n
        → (enforce c (t.enforcers v) sub domain obj act
            ≡ enforce c (t.enforcers w) sub domain obj act)
          × (enforce c (t.enforcers v) sub domain obj act
              ≡ c.decides (c.load t.store) sub domain obj act)
    unfolding enforce
    workers_agree v w m n sub domain obj act synced steps heard heard' has has' =
        let synced' = Steps-IsSynced synced steps in
        let fresh = synced' v m heard has in
        let fresh' = synced' w n heard' has' in rw (has, has', fresh, fresh') (refl, refl)

  -- A worker without casbin lets everything pass, and refuses every change with the error of a
  -- change that is not needed.
  pub without_casbin :
      (w : ℕ) (sub domain obj act : Text) (s : System Model Store)
      → s.enforcers w ≡ none
      → (enforce c (s.enforcers w) sub domain obj act ≡ true)
        × ((add_policy c w sub domain obj act s).0 ≡ err (http 409 "Policy already exists"))
        × ((add_policy c w sub domain obj act s).1.store ≡ s.store)
  unfolding enforce add_policy
  without_casbin w sub domain obj act s missing = rw missing (refl, refl, refl)
