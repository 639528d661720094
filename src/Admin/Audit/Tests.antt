-- ===== src/Admin/Audit/Tests.antt =====
-- Three rows of the tenant 3, one of another, and pages of two.
use lite_iam.Prelude.{
  ℕ, ◌≡◌, refl, not, none, some, List, [], ◌∷◌, ◌==◌, select_where, count_where, sql_eq, arith,
  if◌then◌else◌, ◌-◌,
}
use lite_iam.Fixtures.{plain, ada, with_user}
use lite_iam.Models.{AuditRow}
use lite_iam.Database.{open_session}
use lite_iam.Admin.Audit.{Wildcards, AuditQuery, Filters, filters, passes, newest_first}
use lite_iam.Admin.Audit.Pages.{first_pages, pages_cover, HasDistinctTimes}

abbrev stars : Wildcards
stars = record { wildcard = λ t. none; starts_with = λ t prefix. t == prefix }

abbrev row : ℕ → ℕ → AuditRow
row id tenant_id = record {
  id = id;
  event = 40;
  tenant_id = some tenant_id;
  actor_id = none;
  subject_id = none;
  created_at = id;
}

abbrev rows : List AuditRow
rows = row 1 3 ∷ row 2 3 ∷ row 3 9 ∷ row 4 3 ∷ []

abbrev query : AuditQuery
query = record {
  tenant_id = none;
  event = none;
  subject_id = none;
  actor_id = none;
  since = none;
  until = none;
  page = 1;
  limit = 2;
}

abbrev all_events : Filters
all_events = record {
  tenant_id = 3;
  event = none;
  subject_id = none;
  actor_id = none;
  since = none;
  until = none;
}

-- The second page orders rows of equal times the other way round.
abbrev backwards : ℕ → AuditRow → ℕ
backwards page r = if page == 1 then r.id else 9 - r.id

distinct : HasDistinctTimes (select_where (passes stars all_events) rows)
distinct time = ground arith

pages_cover_example :
    let shown = first_pages stars plain ada query backwards rows (open_session (with_user ada)) 2 in
    (shown ≡ newest_first stars (backwards 2) (select_where (passes stars all_events) rows))
    × (count_where (λ r. not (sql_eq r.tenant_id 3)) shown ≡ 0)
    × (count_where (passes stars all_events) shown ≡ count_where (passes stars all_events) rows)
unfolding filters
pages_cover_example =
    pages_cover stars plain ada query backwards rows (open_session (with_user ada)) all_events 2
      refl distinct (omega arith)
