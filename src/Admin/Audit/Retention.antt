-- ===== src/Admin/Audit/Retention.antt =====
-- `_audit_retention_loop` of app/core/events.py: which rows a pass deletes.
use lite_iam.Prelude.{
  ℕ, ◌≡◌, refl, Bool, true, false, ◌&&◌, ◌||◌, List, [], ◌∷◌, delete_where, arith, ◌∙◌, Bool-cases,
  inl, inr, sym,
}
use lite_iam.Models.{Tenant, AuditRow}
use lite_iam.Admin.Audit.{is_outdated, has_retention, retain_for, retain}

-- Some tenant with a retention finds the row outdated.
abbrev pub is_outdated_for_any : ℕ → List Tenant → AuditRow → Bool
is_outdated_for_any now [] r = false
is_outdated_for_any now (t ∷ tenants) r =
    (has_retention t && is_outdated now t r) || is_outdated_for_any now tenants r

nothing : (rows : List AuditRow) → delete_where (λ r. false) rows ≡ rows
nothing [] = refl
nothing (r ∷ rows) = ground (arith, nothing rows)

both :
    (p q : AuditRow → Bool) (rows : List AuditRow)
    → delete_where q (delete_where p rows) ≡ delete_where (λ r. p r || q r) rows
both p q [] = refl
both p q (r ∷ rows) = ground (arith, both p q rows)

module _ (now : ℕ) (t : Tenant) (tenants : List Tenant) where
  with_retention :
      (rows : List AuditRow)
      → has_retention t ≡ true
      → delete_where (is_outdated_for_any now (t ∷ tenants)) rows
        ≡ delete_where (λ r. is_outdated now t r || is_outdated_for_any now tenants r) rows
  with_retention [] kept = refl
  with_retention (r ∷ rows) kept = ground (arith, with_retention rows)

  without_retention :
      (rows : List AuditRow)
      → has_retention t ≡ false
      → delete_where (is_outdated_for_any now (t ∷ tenants)) rows
        ≡ delete_where (is_outdated_for_any now tenants) rows
  without_retention [] exempt = refl
  without_retention (r ∷ rows) exempt = ground (arith, without_retention rows)

-- The pass over the tenants deletes exactly the rows that a tenant with a retention finds outdated:
-- none of a tenant that is not active or keeps its rows forever.
pub retain_lem :
    (now : ℕ) (tenants : List Tenant) (rows : List AuditRow)
    → retain now tenants rows ≡ delete_where (is_outdated_for_any now tenants) rows
unfolding retain retain_for
retain_lem now [] rows = sym (nothing rows)
retain_lem now (t ∷ tenants) rows = elim (Bool-cases (has_retention t)) [
  | inl kept ↦ rw (with_retention now t tenants rows kept) (
      rw kept (
        retain_lem now tenants (delete_where (is_outdated now t) rows)
        ∙ both (is_outdated now t) (is_outdated_for_any now tenants) rows))
  | inr exempt ↦
      rw (without_retention now t tenants rows exempt) (rw exempt (retain_lem now tenants rows))
]
