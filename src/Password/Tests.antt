-- ===== src/Password/Tests.antt =====
-- The password "Secret1!" by its codes, and an account that had it first.
use lite_iam.Prelude.{ℕ, ◌≡◌, refl, Bool, false, [], ◌∷◌, ◌==◌}
use lite_iam.Fixtures.{defaults, ada}
use lite_iam.Password.{Password, validate_password, none, some, reused}

abbrev secret : Password
secret = 83 ∷ 101 ∷ 99 ∷ 114 ∷ 101 ∷ 116 ∷ 49 ∷ 33 ∷ []

-- A hash is the first character.
abbrev verifies : ℕ → Password → Bool
verifies hash [] = false
verifies hash (c ∷ password) = hash == c

abbrev no_breach : Password → Bool
no_breach password = false

-- The hash 83 of an earlier password takes "Secret1!".
refuses_old :
    validate_password verifies no_breach defaults secret
      (some (record ada { hashed_password = 83 }))
    ≡ some reused
unfolding validate_password
refuses_old = refl

takes_new : validate_password verifies no_breach defaults secret none ≡ none
unfolding validate_password
takes_new = refl
