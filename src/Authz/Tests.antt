-- ===== src/Authz/Tests.antt =====
-- A stand-in for Casbin with the granted rules as a list of objects, at the workers 0 and 1.
use lite_iam.Prelude.{
  Text, Bool, true, false, some, List, [], ◌∷◌, ◌≡◌, refl, contains, remove, if◌then◌else◌, arith,
}
use lite_iam.Authz.{Casbin, System, Rule, permission, grouping, enforce, add_policy, on_notify}
use lite_iam.Authz.Sync.{Refuses, workers_agree, next, here, adds, hears}

abbrev object_of : Rule → Text
object_of (permission sub domain obj act) = obj
object_of (grouping user role domain) = 0

abbrev put : Rule → List Text → List Text → Bool × List Text × List Text
put r m s =
    if contains m (object_of r) then (false, m, s) else (true, object_of r ∷ m, object_of r ∷ s)

abbrev drop_rule : Rule → List Text → List Text → Bool × List Text × List Text
drop_rule r m s =
    if contains m (object_of r)
    then (true, remove m (object_of r), remove s (object_of r))
    else (false, m, s)

abbrev lists : Casbin (List Text) (List Text)
lists = record {
  decides = λ m sub domain obj act. contains m obj;
  add = put;
  remove = drop_rule;
  load = λ s. s;
  roles = λ m user domain. [];
}

lists-Refuses : Refuses lists
lists-Refuses = record {
  add_refused = λ r m s h. ground arith;
  remove_refused = λ r m s h. ground arith;
}

abbrev start : System (List Text) (List Text)
start = record { store = []; enforcers = λ w. some []; pending = λ w. false }

abbrev changed : System (List Text) (List Text)
changed = (add_policy lists 0 5 3 9 7 start).1

abbrev heard : System (List Text) (List Text)
heard = on_notify lists 0 (on_notify lists 1 changed)

workers_agree_example :
    (enforce lists (heard.enforcers 0) 5 3 9 7 ≡ enforce lists (heard.enforcers 1) 5 3 9 7)
    × (enforce lists (heard.enforcers 0) 5 3 9 7 ≡ lists.decides (lists.load heard.store) 5 3 9 7)
unfolding add_policy on_notify
workers_agree_example =
    workers_agree lists lists-Refuses {s = start} {t = heard} 0 1 (9 ∷ []) (9 ∷ []) 5 3 9 7
      (λ w m quiet has. ground arith) (next (next (next here (adds 0 5 3 9 7)) (hears 1)) (hears 0))
      refl refl refl refl

grants : enforce lists (heard.enforcers 1) 5 3 9 7 ≡ true
unfolding add_policy on_notify enforce
grants = refl
