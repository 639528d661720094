-- ===== src/Admin/Audit.antt =====
-- app/admin/audit.py, and the retention of app/core/events.py: the stored audit rows.
--
-- The rows are an argument with the columns that are read. A user's tenant id is a UUID, and so
-- always true: the query of all tenants is never reached. The order
-- that a query gives rows of equal times is a parameter: a rank for each row, another per query.
mod Pages
mod Retention
mod Tests
use lite_iam.Prelude.{
  ℕ, Text, ◌+◌, ◌-◌, ◌*◌, Bool, true, false, not, ◌&&◌, Option, none, some, List, [], ◌∷◌, ◌==◌,
  ltb, leb, length, take, drop, select_where, delete_where, sql_eq, order_by, truthy, if◌then◌else◌,
  ◌||◌,
}
use lite_iam.Models.{User, Tenant, AuditRow}
use lite_iam.External.{External}
use lite_iam.Database.{◌>>=◌, ◌>>◌, Handler, Error, or_raise, raise_if, http, pure}

-- `event[:-1]` of a text that ends with a star, and `startswith`.
pub record Wildcards : Type 0 where
  pub wildcard : Text → Option Text
  pub starts_with : Text → Text → Bool

pub record AuditQuery : Type 0 where
  pub tenant_id : Option Text
  pub event : Option Text
  pub subject_id : Option Text
  pub actor_id : Option Text
  pub since : Option ℕ
  pub until : Option ℕ
  pub page : ℕ
  pub limit : ℕ

-- The conditions of the WHERE.
pub record Filters : Type 0 where
  pub tenant_id : ℕ
  pub event : Option Text
  pub subject_id : Option ℕ
  pub actor_id : Option ℕ
  pub since : Option ℕ
  pub until : Option ℕ

pub record AuditPage : Type 0 where
  pub items : List AuditRow
  pub total : ℕ
  pub page : ℕ
  pub limit : ℕ
  pub has_more : Bool

-- `if text: uuid.UUID(text)`, with a 400 where that raises.
abbrev optional_uuid : External → Option Text → Error → Handler (Option ℕ)
optional_uuid x none e = pure none
optional_uuid x (some t) e =
    if truthy t then (do id ← or_raise (x.as_uuid t) e; pure (some id)) else pure none

abbrev is_other : ℕ → Option ℕ → Bool
is_other tenant_id none = false
is_other tenant_id (some requested) = not (requested == tenant_id)

abbrev optional_text : Option Text → Option Text
optional_text none = none
optional_text (some t) = if truthy t then some t else none

unfoldable pub filters : External → User → AuditQuery → Handler Filters
filters x user q = do
  requested ← optional_uuid x q.tenant_id (http 400 "Invalid tenant_id UUID")
  raise_if (is_other user.tenant_id requested) (http 403 "Cannot query another tenant's audit log")
  subject_id ← optional_uuid x q.subject_id (http 400 "Invalid subject_id UUID")
  actor_id ← optional_uuid x q.actor_id (http 400 "Invalid actor_id UUID")
  pure (record {
    tenant_id = user.tenant_id;
    event = optional_text q.event;
    subject_id = subject_id;
    actor_id = actor_id;
    since = q.since;
    until = q.until;
  })

abbrev id_passes : Option ℕ → Option ℕ → Bool
id_passes none column = true
id_passes (some id) column = sql_eq column id

abbrev since_passes : Option ℕ → ℕ → Bool
since_passes none at = true
since_passes (some since) at = leb since at

abbrev until_passes : Option ℕ → ℕ → Bool
until_passes none at = true
until_passes (some until) at = leb at until

module _ (w : Wildcards) where
  abbrev event_passes : Option Text → Text → Bool
  event_passes none event = true
  event_passes (some pattern') event = elim (w.wildcard pattern') [
    | none ↦ event == pattern'
    | some prefix ↦ w.starts_with event prefix
  ]

  -- `and_(*filters)`
  abbrev pub passes : Filters → AuditRow → Bool
  passes f r =
      sql_eq r.tenant_id f.tenant_id
      && event_passes f.event r.event
      && id_passes f.subject_id r.subject_id
      && id_passes f.actor_id r.actor_id
      && since_passes f.since r.created_at
      && until_passes f.until r.created_at

  -- `ORDER BY created_at DESC`, with the ranks of rows of equal times.
  abbrev pub is_newer : (AuditRow → ℕ) → AuditRow → AuditRow → Bool
  is_newer rank a b =
      ltb b.created_at a.created_at || ((b.created_at == a.created_at) && leb (rank a) (rank b))

  abbrev pub newest_first : (AuditRow → ℕ) → List AuditRow → List AuditRow
  newest_first rank = order_by (is_newer rank)

  -- `.offset((page - 1) * limit).limit(limit)`
  abbrev pub page_of : (AuditRow → ℕ) → Filters → ℕ → ℕ → List AuditRow → List AuditRow
  page_of rank f page limit rows =
      take limit (drop ((page - 1) * limit) (newest_first rank (select_where (passes f) rows)))

  unfoldable pub query_audit_log :
      External → User → AuditQuery → (AuditRow → ℕ) → List AuditRow → Handler AuditPage
  query_audit_log x user q rank rows = do
    f ← filters x user q
    let total = length (select_where (passes f) rows)
    pure (record {
      items = page_of rank f q.page q.limit rows;
      total = total;
      page = q.page;
      limit = q.limit;
      has_more = ltb ((q.page - 1) * q.limit + q.limit) total;
    })

-- A row of the tenant from before its cutoff.
abbrev pub is_outdated : ℕ → Tenant → AuditRow → Bool
is_outdated now t r =
    sql_eq r.tenant_id t.id && ltb (r.created_at + t.audit_log_retention_days * 86400) now

abbrev pub has_retention : Tenant → Bool
has_retention t = t.is_active && ltb 0 t.audit_log_retention_days

pub retain_for : ℕ → List Tenant → List AuditRow → List AuditRow
retain_for now [] rows = rows
retain_for now (t ∷ tenants) rows = retain_for now tenants (delete_where (is_outdated now t) rows)

-- One pass of `_audit_retention_loop`.
pub retain : ℕ → List Tenant → List AuditRow → List AuditRow
retain now tenants rows = retain_for now (select_where has_retention tenants) rows
