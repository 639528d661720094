-- ===== src/IpPolicy/Decision.antt =====
-- When a tenant's IP policy denies an address.
use lite_iam.Prelude.{
  ℕ, suc, Text, ◌≡◌, ◌≢◌, refl, true, false, some, List, [], ◌∷◌, ◌⊎◌, ◌↔◌, inl, inr, arith,
  or_empty, Bool-cases, ap,
}
use lite_iam.Models.{Tenant}
use lite_iam.External.{External}
use lite_iam.IpPolicy.{check_parsed, apply_lists, in_any, check_ip_policy, is_empty}

-- Some range of the list contains the address.
abbrev pub InSome : External → ℕ → List Text → Type 0
InSome x ip [] = ⊥
InSome x ip (cidr ∷ cidrs) = (x.in_network ip cidr ≡ some true) ⊎ InSome x ip cidrs

in_any-true :
    (x : External) (ip : ℕ) (cidrs : List Text) → in_any x ip cidrs ≡ true → InSome x ip cidrs
unfolding in_any
in_any-true x ip [] h = cc
in_any-true x ip (cidr ∷ cidrs) h = ground (arith, in_any-true x ip cidrs)

in_any-some :
    (x : External) (ip : ℕ) (cidrs : List Text) → InSome x ip cidrs → in_any x ip cidrs ≡ true
unfolding in_any
in_any-some x ip [] h = absurd h
in_any-some x ip (cidr ∷ cidrs) h = ground (arith, in_any-some x ip cidrs)

-- What the two lists say together.
abbrev pub IsDenied : External → ℕ → List Text → List Text → Type 0
IsDenied x ip block allow = InSome x ip block ⊎ ((allow ≢ []) × ¬ (InSome x ip allow))

IsDenied-only_if :
    (x : External) (ip : ℕ) (block allow : List Text)
    → (apply_lists x ip block allow).0 ≡ false
    → IsDenied x ip block allow
unfolding apply_lists
IsDenied-only_if x ip block allow d = elim (Bool-cases (in_any x ip block)) [
  | inl blocked ↦ inl (in_any-true x ip block blocked)
  | inr free ↦ inr (
    λ none_allowed. absurd (ground (arith, ap (λ (l : List Text). is_empty l) none_allowed)),
    λ listed. absurd (ground (arith, in_any-some x ip allow listed)),
  )
]

IsDenied-if :
    (x : External) (ip : ℕ) (block allow : List Text)
    → IsDenied x ip block allow
    → (apply_lists x ip block allow).0 ≡ false
unfolding apply_lists
IsDenied-if x ip [] allow (inl blocked) = elim blocked [ ]
IsDenied-if x ip (cidr ∷ block) allow (inl blocked) =
    rw (in_any-some x ip (cidr ∷ block) blocked) refl
IsDenied-if x ip block [] (inr (listed, outside)) = absurd (listed refl)
IsDenied-if x ip block (cidr ∷ allow) (inr (listed, outside)) =
    elim (Bool-cases (in_any x ip (cidr ∷ allow))) [
      | inl inside ↦ absurd (outside (in_any-true x ip (cidr ∷ allow) inside))
      | inr out ↦ ground arith
    ]

-- A non-empty address that parses is denied exactly where a blocked range of the tenant contains
-- it, or the tenant has allowed ranges and none of them contains it.
pub check_ip_policy_denies :
    (x : External) (t ip : ℕ) (tenant : Tenant)
    → x.as_ip (suc t) ≡ some ip
    → ((check_ip_policy x (some (suc t)) tenant).0 ≡ false)
      ↔ IsDenied x ip (or_empty tenant.ip_blocklist) (or_empty tenant.ip_allowlist)
unfolding check_ip_policy
check_ip_policy_denies x t ip tenant parsed =
    rw (parsed, check_parsed)
      (
        IsDenied-only_if x ip (or_empty tenant.ip_blocklist) (or_empty tenant.ip_allowlist),
        IsDenied-if x ip (or_empty tenant.ip_blocklist) (or_empty tenant.ip_allowlist),
      )
