-- ===== src/Revocation/Tests.antt =====
-- A worker with one revocation in force and one that has expired.
use lite_iam.Prelude.{Text, ◌≡◌, true, false, contains, ltb, select_where, refl, [], ◌∷◌, arith}
use lite_iam.Revocation.{Worker, is_revoked, prune_expired}
use lite_iam.Revocation.Cover.{Covers, jtis_expired, IsCovering, prune_expired-IsCovering}

abbrev worker : Worker
worker = record {
  table = (record { jti = 1; expires_at = 50 }) ∷ (record { jti = 2; expires_at = 150 }) ∷ [];
  revoked_jtis = 1 ∷ 2 ∷ [];
}

worker-IsCovering : IsCovering 100 worker
unfolding is_revoked
worker-IsCovering = (λ live. refl, (λ live. refl, tt))

prune_expired-IsCovering_example :
    let w' = prune_expired 100 worker in
    IsCovering 100 w'
    × Covers 100 worker.table w'.revoked_jtis
    × (w'.table ≡ select_where (λ r. ltb 100 r.expires_at) worker.table)
    × ((jti : Text)
        → contains (jtis_expired 100 worker.table) jti ≡ true
        → is_revoked w'.revoked_jtis jti ≡ false)
prune_expired-IsCovering_example =
    prune_expired-IsCovering 100 worker worker-IsCovering
      (λ live. absurd (omega arith), (λ live. refl, tt))
