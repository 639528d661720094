-- ===== src/Tokens/Cache/Fresh.antt =====
-- app/tokens/strategy.py: how old a tenant's record can be.
use lite_iam.Prelude.{
  ℕ, Text, ◌+◌, ◌≡◌, ◌≤◌, ◌<◌, refl, Option, none, some, ltb, arith, Bool-cases, Option-cases, inl,
  inr, ◌==◌, eq_of_==,
}
use lite_iam.External.{External}
use lite_iam.Database.{Db}
use lite_iam.Tokens.{TenantRecord}
use lite_iam.Tokens.Cache.{
  ClaimsCache, get_tenant_record, invalidate_claims_cache, load_record, reload, claims_cache_ttl,
}

module _ (x : External) (past : ℕ → Option Db) where
  -- The cache of a worker from its start on, with the time of the last step, as `past` gives the
  -- tables that a load at each time reads.
  pub data Runs : ℕ → ClaimsCache → Type 0 where
    starts : (now : ℕ) → Runs now (λ tenant_id. none)
    gets :
        {then' : ℕ} {cache : ClaimsCache} (tenant_id : Text) (now : ℕ)
        → Runs then' cache
        → then' ≤ now
        → Runs now (get_tenant_record x tenant_id now (past now) cache).1
    invalidates :
        {then' : ℕ} {cache : ClaimsCache} (tenant_id : Text) (now : ℕ)
        → Runs then' cache
        → then' ≤ now
        → Runs now (invalidate_claims_cache tenant_id cache)

  -- The record is what a load gave within the last minute.
  abbrev pub IsRecent : Text → ℕ → TenantRecord → Type 0
  IsRecent tenant_id now r =
      (at : ℕ) × (at ≤ now)
      × (now < at + claims_cache_ttl)
      × (r ≡ load_record x tenant_id (past at))

  -- Each entry is what a load gave a minute before its end.
  abbrev IsLoaded : ClaimsCache → ℕ → Type 0
  IsLoaded cache now =
      (tenant_id : Text) (r : TenantRecord) (until : ℕ)
      → cache tenant_id ≡ some (r, until)
      → (at : ℕ) × (at ≤ now)
        × (until ≡ at + claims_cache_ttl)
        × (r ≡ load_record x tenant_id (past at))

  -- An entry after a load is an old one, or what was loaded.
  reload-IsLoaded :
      (tenant_id : Text) (then' now : ℕ) (cache : ClaimsCache)
      → IsLoaded cache then'
      → then' ≤ now
      → IsLoaded (reload tenant_id now (load_record x tenant_id (past now)) cache).1 now
  reload-IsLoaded tenant_id then' now cache loaded later other r until stored =
      elim (Bool-cases (other == tenant_id)) [
        | inl same ↦
            let is_it = eq_of_== other tenant_id same in
            (now, omega arith, ground arith, ground arith)
        | inr differs ↦
            let (at, before, ends, from) = loaded other r until (ground arith) in
            (at, omega arith, ends, from)
      ]

  get-IsLoaded :
      (tenant_id : Text) (then' now : ℕ) (cache : ClaimsCache)
      → IsLoaded cache then'
      → then' ≤ now
      → IsLoaded (get_tenant_record x tenant_id now (past now) cache).1 now
  unfolding get_tenant_record
  get-IsLoaded tenant_id then' now cache loaded later = elim (Option-cases (cache tenant_id)) [
    | inl missing ↦
        rw (get_tenant_record, missing) (reload-IsLoaded tenant_id then' now cache loaded later)
    | inr ((r', until'), held) ↦ elim (Bool-cases (ltb now until')) [
      | inl alive ↦
          rw (get_tenant_record, held, alive)
            (λ other r until stored.
              let (at, before, ends, from) = loaded other r until stored in
              (at, omega arith, ends, from))
      | inr over ↦
          rw (get_tenant_record, held, over)
            (reload-IsLoaded tenant_id then' now cache loaded later)
    ]
  ]

  Runs-IsLoaded : {now : ℕ} {cache : ClaimsCache} → Runs now cache → IsLoaded cache now
  unfolding invalidate_claims_cache
  Runs-IsLoaded (starts now) other r until stored = absurd (ground arith)
  Runs-IsLoaded (gets {then'} {cache} tenant_id now runs later) other r until stored =
      get-IsLoaded tenant_id then' now cache (Runs-IsLoaded runs) later other r until stored
  Runs-IsLoaded (invalidates {then'} {cache} tenant_id now runs later) other r until stored =
      elim (Bool-cases (other == tenant_id)) [
        | inl same ↦ absurd (ground arith)
        | inr differs ↦
            let (at, before, ends, same) = Runs-IsLoaded runs other r until (ground arith) in
            (at, omega arith, ends, same)
      ]

  -- Whatever reads and invalidations a worker has made since its start, at times that do not go
  -- back, the tenant's record that it takes at some time is what a load of the tables gave less
  -- than 60 seconds before, or gives then.
  pub records-IsRecent :
      {then' : ℕ} {cache : ClaimsCache} (tenant_id : Text) (now : ℕ)
      → Runs then' cache
      → then' ≤ now
      → IsRecent tenant_id now (get_tenant_record x tenant_id now (past now) cache).0
  unfolding get_tenant_record
  records-IsRecent {then'} {cache} tenant_id now runs later =
      elim (Option-cases (cache tenant_id)) [
        | inl missing ↦ rw (get_tenant_record, missing) (now, omega arith, omega arith, refl)
        | inr ((r, until), held) ↦ elim (Bool-cases (ltb now until)) [
          | inl alive ↦
              let (at, before, ends, from) = Runs-IsLoaded runs tenant_id r until held in
              rw (get_tenant_record, held, alive) (at, omega arith, ground arith, from)
          | inr over ↦ rw (get_tenant_record, held, over) (now, omega arith, omega arith, refl)
        ]
      ]

  -- And after this worker has invalidated the tenant's record, what it reads next is loaded afresh.
  pub get-invalidate :
      (tenant_id : Text) (now : ℕ) (cache : ClaimsCache)
      → (get_tenant_record x tenant_id now (past now) (invalidate_claims_cache tenant_id cache)).0
        ≡ load_record x tenant_id (past now)
  unfolding get_tenant_record invalidate_claims_cache
  get-invalidate tenant_id now cache = ground arith
