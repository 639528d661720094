-- ===== src/Admin/Audit/Pages.antt =====
-- app/admin/audit.py: what the pages show.
use lite_iam.Prelude.{
  ℕ, zero, suc, ◌+◌, ◌-◌, ◌*◌, ◌≡◌, ◌≤◌, refl, sym, not, List, [], ◌∷◌, ◌++◌, length, take,
  select_where, count_where, sql_eq, arith, take-add, take_of_length-le, length-order_by,
  count-order_by, ◌∙◌, Bool, ltb, ap, order_by-agree, ◌==◌,
}
use lite_iam.Models.{User, AuditRow}
use lite_iam.External.{External}
use lite_iam.Database.{Session, Result, ok, err}
use lite_iam.Admin.Audit.{
  Wildcards, AuditQuery, Filters, AuditPage, filters, passes, newest_first, page_of,
  query_audit_log, is_newer,
}

abbrev items_of : Result AuditPage → List AuditRow
items_of (ok page) = page.items
items_of (err e) = []

-- No two of the rows have the same time.
abbrev pub HasDistinctTimes : List AuditRow → Type 0
HasDistinctTimes rows = (time : ℕ) → count_where (λ r. r.created_at == time) rows ≤ 1

-- The query of each page orders the rows of equal times in a way of its own, `ranks page`.
module _ (w : Wildcards) (x : External) (user : User) (q : AuditQuery) (ranks : ℕ → AuditRow → ℕ)
    (rows : List AuditRow) (s : Session) where
  -- The reply for one page of the query.
  abbrev pub page_reply : ℕ → Result AuditPage
  page_reply page = (query_audit_log w x user (record q { page = page }) (ranks page) rows s).0

  -- The items of the first pages, in order.
  pub first_pages : ℕ → List AuditRow
  first_pages zero = []
  first_pages (suc n) = first_pages n ++ items_of (page_reply (suc n))

  same_filters : (page : ℕ) → filters x user (record q { page = page }) s ≡ filters x user q s
  unfolding filters
  same_filters page = refl

  module _ (f : Filters) (parsed : (filters x user q s).0 ≡ ok f) where
    replies :
        (page : ℕ)
        → page_reply page
          ≡ ok (record {
            items = page_of w (ranks page) f page q.limit rows;
            total = length (select_where (passes w f) rows);
            page = page;
            limit = q.limit;
            has_more =
                ltb ((page - 1) * q.limit + q.limit) (length (select_where (passes w f) rows));
          })
    unfolding query_audit_log
    replies page =
        let same : (filters x user (record q { page = page }) s).0 ≡ ok f =
          ap (λ (r : Result Filters × Session). r.0) (same_filters page) ∙ parsed in
        rw (same, page_reply) refl

    -- All the rows that pass, newest first.
    abbrev pub matching : ℕ → List AuditRow
    matching page = newest_first w (ranks page) (select_where (passes w f) rows)

    -- Where no two have the same time, the queries of two pages order them alike.
    matching-agree :
        HasDistinctTimes (select_where (passes w f) rows) → (m n : ℕ) → matching m ≡ matching n
    matching-agree apart m n =
        order_by-agree (λ r. r.created_at) (is_newer w (ranks m)) (is_newer w (ranks n))
          (λ a b other. ground arith) (select_where (passes w f) rows) apart

    covered :
        (n : ℕ)
        → HasDistinctTimes (select_where (passes w f) rows)
        → first_pages n ≡ take (n * q.limit) (matching n)
    unfolding first_pages
    covered zero apart = let e : zero * q.limit ≡ 0 = ground arith in rw e refl
    covered (suc n) apart =
        let e : suc n * q.limit ≡ n * q.limit + q.limit = ground arith in
        let p : suc n - 1 ≡ n = omega arith in
        rw (e, replies (suc n), covered n apart, p, matching-agree apart n (suc n))
          (sym (take-add (n * q.limit) q.limit (matching (suc n))))

    kept_rows :
        (xs : List AuditRow)
        → count_where (passes w f) (select_where (passes w f) xs) ≡ count_where (passes w f) xs
    kept_rows [] = refl
    kept_rows (r ∷ xs) = ground (arith, kept_rows xs)

    own_rows :
        (xs : List AuditRow)
        → count_where (λ r. not (sql_eq r.tenant_id f.tenant_id)) (select_where (passes w f) xs) ≡ 0
    own_rows [] = refl
    own_rows (r ∷ xs) = ground (arith, own_rows xs)

  own_tenant : (f : Filters) → (filters x user q s).0 ≡ ok f → f.tenant_id ≡ user.tenant_id
  unfolding filters
  own_tenant f parsed = ground arith

  -- If the filters of an audit query are accepted, its first pages are together the rows that pass,
  -- the newest first, as soon as there are enough of them: none of another tenant is among them,
  -- and none that passes is missing. Condition: no two rows that pass have the same time. The order
  -- of equal times may be another one in the query of each page.
  pub pages_cover :
      (f : Filters) (n : ℕ)
      → (filters x user q s).0 ≡ ok f
      → HasDistinctTimes (select_where (passes w f) rows)
      → length (select_where (passes w f) rows) ≤ n * q.limit
      → (first_pages n ≡ newest_first w (ranks n) (select_where (passes w f) rows))
        × (count_where (λ r. not (sql_eq r.tenant_id user.tenant_id)) (first_pages n) ≡ 0)
        × ((count_where (passes w f) (first_pages n)) ≡ count_where (passes w f) rows)
  pages_cover f n parsed apart enough =
      let rows' = select_where (passes w f) rows in
      let order : AuditRow → AuditRow → Bool = is_newer w (ranks n) in
      let all : first_pages n ≡ newest_first w (ranks n) rows' =
        covered f parsed n apart
        ∙ take_of_length-le (n * q.limit) (newest_first w (ranks n) rows')
            (omega (arith, length-order_by order rows')) in
      (
        all,
        rw (all, sym (own_tenant f parsed))
            (count-order_by order (λ r. not (sql_eq r.tenant_id f.tenant_id)) rows'
              ∙ own_rows f parsed rows),
        rw all (count-order_by order (passes w f) rows' ∙ kept_rows f parsed rows),
      )
