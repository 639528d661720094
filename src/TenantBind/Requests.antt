-- ===== src/TenantBind/Requests.antt =====
-- app/middleware/tenant_bind.py: each handler sees the tenant of its own token.
use lite_iam.Prelude.{ℕ, Text, ◌≡◌, refl, ap, Bool, Option, none, List, [], ◌∷◌, map}
use lite_iam.External.{External}
use lite_iam.Tokens.{Claims}
use lite_iam.TenantBind.{try_bind_tenant, dispatch_bound}

module _ (x : External) (decode_unverified : Text → Option Claims) where
  -- The tenants that the handlers of some requests see, one after the other in one context.
  pub seen : List (Option Text × Bool) → Option ℕ → List (Option ℕ)
  unfolding dispatch_bound
  seen [] ctx = []
  seen ((token, raises) ∷ rest) ctx =
      let (bound, ctx') = dispatch_bound x decode_unverified token raises ctx in
      bound ∷ seen rest ctx'

  -- Whatever the context was, and whichever handlers raise, a handler sees what its token binds.
  pub seen-map :
      (requests : List (Option Text × Bool)) (ctx : Option ℕ)
      → seen requests ctx ≡ map (λ r. try_bind_tenant x decode_unverified r.0 none) requests
  unfolding seen dispatch_bound
  seen-map [] ctx = refl
  seen-map ((token, raises) ∷ rest) ctx =
      ap (λ l. try_bind_tenant x decode_unverified token none ∷ l) (seen-map rest _)
