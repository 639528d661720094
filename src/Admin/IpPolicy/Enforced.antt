-- ===== src/Admin/IpPolicy/Enforced.antt =====
-- app/admin/ip_policy.py with app/middleware's check: the ranges that are written are enforced.
use lite_iam.Prelude.{
  ℕ, suc, Text, ◌≡◌, ◌↔◌, refl, Bool, true, false, some, List, [], ◌∷◌, ◌==◌, arith, or_empty, find,
  Bool-cases, update_where, ◌||◌, inl, inr, ◌∙◌, ap, sym,
}
use lite_iam.External.{External}
use lite_iam.Models.{User, Tenant}
use lite_iam.Database.{Db, get_tenant, Result, ok, get_session}
use lite_iam.Admin.IpPolicy.{
  IpPolicyWrite, set_ip_policy, get_ip_policy, is_valid_write, or_none, IpPolicyRead, policy_of,
  is_some, with_policy,
}
use lite_iam.IpPolicy.{check_ip_policy}
use lite_iam.IpPolicy.Decision.{IsDenied, check_ip_policy_denies}
use lite_iam.Database.Runs.{find-update_where}

or_empty-or_none : (cidrs : List Text) → or_empty (or_none cidrs) ≡ cidrs
or_empty-or_none [] = refl
or_empty-or_none (c ∷ cs) = refl

module _ (x : External) (is_network : Text → Bool) (user : User) (tenant_id : Text) (tid : ℕ)
    (t : Tenant) (db : Db) (super : user.is_superuser ≡ true)
    (parsed : x.as_uuid tenant_id ≡ some tid) (found : get_tenant tid db ≡ some t) where
  abbrev pub set_policy : IpPolicyWrite → Result IpPolicyRead × Db
  set_policy body = get_session (set_ip_policy x is_network user tenant_id body) db

  unchanged :
      (body : IpPolicyWrite)
      → (is_some body.ip_allowlist || is_some body.ip_blocklist) ≡ false
      → with_policy body t ≡ t
  unchanged body neither = ground arith

  stored :
      (body : IpPolicyWrite)
      → find (λ u. u.id == tid) (update_where (λ u. u.id == tid) (with_policy body) db.tenants)
        ≡ some (with_policy body t)
  stored body =
      find-update_where (λ u. u.id == tid) (with_policy body) db.tenants t (λ a. refl) found

  -- What a superuser writes is stored for the tenant, returned, and read back.
  pub set_then_get :
      (body : IpPolicyWrite)
      → is_valid_write is_network body ≡ true
      → let (reply, db') = set_policy body in
        (reply ≡ ok (policy_of (with_policy body t)))
        × (get_tenant tid db' ≡ some (with_policy body t))
        × (get_session (get_ip_policy x user tenant_id) db' ≡ (reply, db'))
  unfolding set_ip_policy get_ip_policy
  set_then_get body valid =
      elim (Bool-cases (is_some body.ip_allowlist || is_some body.ip_blocklist)) [
        | inl some_list ↦
            rw (valid, super, parsed, found, some_list)
              (refl, ground (arith, stored body), rw (stored body) refl)
        | inr neither ↦
            let same = unchanged body neither in
            rw (valid, super, parsed, found, neither)
              (
                refl,
                found ∙ ap some (sym same),
                rw found (ap (λ u. (ok (policy_of u), db)) (sym same)),
              )
      ]

  -- After a superuser wrote both lists, an address that parses is denied exactly where a written block
  -- range contains it, or there are written allowed ranges and none contains it.
  pub written_policy_denies :
      (allow block : List Text) (a ip : ℕ)
      → let body : IpPolicyWrite = record {
        ip_allowlist = some allow;
        ip_blocklist = some block;
      } in
        is_valid_write is_network body ≡ true
        → x.as_ip (suc a) ≡ some ip
        → (u : Tenant) × (get_tenant tid (set_policy body).1 ≡ some u)
          × (((check_ip_policy x (some (suc a)) u).0 ≡ false) ↔ IsDenied x ip block allow)
  written_policy_denies allow block a ip valid address =
      let body : IpPolicyWrite = record { ip_allowlist = some allow; ip_blocklist = some block } in
      let (reply, stored, again) = set_then_get body valid in
      (
        with_policy body t,
        stored,
        rw (or_empty-or_none allow, or_empty-or_none block) at
            (check_ip_policy_denies x a ip (with_policy body t) address),
      )
