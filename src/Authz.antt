-- ===== src/Authz.antt =====
-- app/authz/enforcer.py, policies.py and watcher.py: the policies that the workers share.
--
-- Casbin and its adapter are a third-party library, and so a parameter: a model in the memory of
-- each worker, and the store of the adapter. The lock makes each change of a worker one step. A
-- NOTIFY is pending at every worker until its listener reloads; a worker without casbin has no
-- model. The connections of the watcher are I/O.
mod Sync
mod Tests
use lite_iam.Prelude.{ℕ, Text, Bool, true, false, Option, none, some, List, [], ◌==◌, if◌then◌else◌}
use lite_iam.Database.{Result, ok, err, Error, http}

-- A row `p` or `g` of the policy.
pub data Rule : Type 0 where
  permission : Text → Text → Text → Text → Rule
  grouping : Text → Text → Text → Rule

pub record Casbin (Model Store : Type 0) : Type 0 where
  -- enforcer.enforce(sub, dom, obj, act)
  pub decides : Model → Text → Text → Text → Text → Bool
  -- add_policy and add_role_for_user_in_domain, remove_policy: the reply, the model and the store
  pub add : Rule → Model → Store → Bool × Model × Store
  pub remove : Rule → Model → Store → Bool × Model × Store
  -- load_policy
  pub load : Store → Model
  -- get_roles_for_user_in_domain
  pub roles : Model → Text → Text → List Text

-- The workers, by number.
pub record System (Model Store : Type 0) : Type 0 where
  pub store : Store
  pub enforcers : ℕ → Option Model
  pub pending : ℕ → Bool

abbrev pub set_at : {A : Type 0} → (ℕ → A) → ℕ → A → ℕ → A
set_at f w a v = if v == w then a else f v

module _ {Model Store : Type 0} (c : Casbin Model Store) where
  -- `initialize` of a worker, with casbin installed or not.
  pub initialize : Bool → Store → Option Model
  initialize true store = some (c.load store)
  initialize false store = none

  -- `enforce`: open where there is no enforcer.
  unfoldable pub enforce : Option Model → Text → Text → Text → Text → Bool
  enforce none sub domain obj act = true
  enforce (some m) sub domain obj act = c.decides m sub domain obj act

  -- `get_roles_for_user`
  pub get_roles_for_user : Option Model → Text → Text → List Text
  get_roles_for_user none user domain = []
  get_roles_for_user (some m) user domain = c.roles m user domain

  -- A change by one worker under its lock.
  abbrev pub locked :
      (Model → Store → Bool × Model × Store) → Option Model → Store → Bool × Option Model × Store
  locked op none store = (false, none, store)
  locked op (some m) store = let (done, m', store') = op m store in (done, some m', store')

  -- `safe_add_policy`, `safe_add_role_for_user` and `safe_remove_policy`
  abbrev pub safe_add : Rule → Option Model → Store → Bool × Option Model × Store
  safe_add rule = locked (c.add rule)

  abbrev pub safe_remove : Rule → Option Model → Store → Bool × Option Model × Store
  safe_remove rule = locked (c.remove rule)

  -- `safe_reload_policy`
  abbrev pub safe_reload_policy : Option Model → Store → Option Model
  safe_reload_policy none store = none
  safe_reload_policy (some m) store = some (c.load store)

  -- `notify_policy_updated`
  abbrev pub notify_policy_updated : System Model Store → System Model Store
  notify_policy_updated s = record s { pending = λ w. true }

  -- The listener of a worker hears the notification.
  pub on_notify : ℕ → System Model Store → System Model Store
  on_notify w s = record s {
    enforcers = set_at s.enforcers w (safe_reload_policy (s.enforcers w) s.store);
    pending = set_at s.pending w false;
  }

  -- A change at a worker, as the system sees it.
  abbrev pub apply_at :
      (Option Model → Store → Bool × Option Model × Store)
      → ℕ
      → System Model Store
      → Bool × System Model Store
  apply_at op w s =
      let (done, m, store) = op (s.enforcers w) s.store in
      (done, record s { store = store; enforcers = set_at s.enforcers w m })

  -- The common course of the three endpoints.
  abbrev pub answer : Error → Bool × System Model Store → Result (Unit {0}) × System Model Store
  answer e (true, s) = (ok tt, notify_policy_updated s)
  answer e (false, s) = (err e, s)

  unfoldable pub add_policy :
      ℕ → Text → Text → Text → Text → System Model Store → Result (Unit {0}) × System Model Store
  add_policy w sub domain obj act s =
      answer (http 409 "Policy already exists")
        (apply_at (safe_add (permission sub domain obj act)) w s)

  unfoldable pub remove_policy :
      ℕ → Text → Text → Text → Text → System Model Store → Result (Unit {0}) × System Model Store
  remove_policy w sub domain obj act s =
      answer (http 404 "Policy not found")
        (apply_at (safe_remove (permission sub domain obj act)) w s)

  unfoldable pub assign_role :
      ℕ → Text → Text → Text → System Model Store → Result (Unit {0}) × System Model Store
  assign_role w user role domain s =
      answer (http 409 "Role already assigned")
        (apply_at (safe_add (grouping user role domain)) w s)
