-- ===== src/RateLimit.antt =====
-- app/middleware/reg_rate_limit.py: at most five registrations an hour from one address.
mod Window
mod Reference
mod Tests
use lite_iam.Prelude.{
  ℕ, Text, ◌+◌, Bool, true, false, List, [], ◌∷◌, ◌++◌, leb, ltb, ◌==◌, if◌then◌else◌, length,
  select_where,
}

abbrev pub window_seconds : ℕ
window_seconds = 3600

abbrev pub max_registrations : ℕ
max_registrations = 5

-- `defaultdict(list)`: the times of an address, none at first.
abbrev pub Hits : Type 0
Hits = Text → List ℕ

-- `t > now - _WINDOW_SECONDS`
abbrev pub is_recent : ℕ → ℕ → Bool
is_recent now t = ltb now (t + window_seconds)

abbrev pub set : Text → List ℕ → Hits → Hits
set ip times hits other = if other == ip then times else hits other

-- `_RegCounter.check_and_record`
unfoldable pub check_and_record : Text → ℕ → Hits → Bool × Hits
check_and_record ip now hits =
    let recent = select_where (is_recent now) (hits ip) in
    if leb max_registrations (length recent)
    then (false, set ip recent hits)
    else (true, set ip (recent ++ now ∷ []) hits)
