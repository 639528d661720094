-- ===== src/Enterprise/State.antt =====
-- app/identity/enterprise.py: the signed state of a sign-in.
use lite_iam.Prelude.{ℕ, Text, ◌+◌, ◌≡◌, ◌≤◌, some, arith, Option-cases, inl, inr}
use lite_iam.Database.{ok, Session}
use lite_iam.Social.{Codec}
use lite_iam.Enterprise.{verify_enterprise_state, state_max_age}

module _ (codec : Codec) (secret_key : Text) where
  -- A state that was accepted was signed by the service and is at most 300 seconds old, and the
  -- check changes nothing.
  pub verify_enterprise_state_sound :
      (state tenant_id : Text) (now : ℕ) (s s' : Session)
      → verify_enterprise_state codec secret_key now state s ≡ (ok tenant_id, s')
      → (s' ≡ s)
        × (nonce ts : Text) × (at : ℕ) × (codec.decode state
            ≡ some (tenant_id, nonce, ts, codec.sign secret_key (codec.payload tenant_id nonce ts)))
        × (codec.as_int ts ≡ some at)
        × (now ≤ at + state_max_age)
  unfolding verify_enterprise_state
  verify_enterprise_state_sound state tenant_id now s s' done =
      elim (Option-cases (codec.decode state)) [
        | inl malformed ↦ absurd (ground arith)
        | inr ((t, n, ts, sig), decoded) ↦ elim (Option-cases (codec.as_int ts)) [
          | inl unreadable ↦ absurd (ground arith)
          | inr (at, read) ↦ (ground arith, n, ts, at, ground arith, read, ground arith)
        ]
      ]

  -- An accepted state is accepted again until it expires, in every session: nothing consumes it.
  pub state_replays :
      (state tenant_id : Text) (now later at : ℕ) (nonce ts sig : Text) (s s' r : Session)
      → verify_enterprise_state codec secret_key now state s ≡ (ok tenant_id, s')
      → codec.decode state ≡ some (tenant_id, nonce, ts, sig)
      → codec.as_int ts ≡ some at
      → later ≤ at + state_max_age
      → verify_enterprise_state codec secret_key later state r ≡ (ok tenant_id, r)
  unfolding verify_enterprise_state
  state_replays state tenant_id now later at nonce ts sig s s' r done decoded read early =
      ground arith
