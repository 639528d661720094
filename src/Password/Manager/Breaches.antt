-- ===== src/Password/Manager/Breaches.antt =====
-- app/identity/password.py: which answers of the breach list refuse a password.
use lite_iam.Prelude.{
  ℕ, Text, ◌≡◌, refl, Bool, false, ◌&&◌, none, some, List, [], ◌∷◌, ◌==◌, ltb, arith,
}
use lite_iam.Password.{any}
use lite_iam.Password.Manager.{Line, other_line, entry, check_hibp, has_suffix}

-- A line that counts the suffix in a breach, and one whose count is no number.
abbrev pub is_hit : Text → Line → Bool
is_hit suffix other_line = false
is_hit suffix (entry s none) = false
is_hit suffix (entry s (some n)) = (s == suffix) && ltb 0 n

abbrev pub is_unreadable : Text → Line → Bool
is_unreadable suffix other_line = false
is_unreadable suffix (entry s none) = s == suffix
is_unreadable suffix (entry s (some n)) = false

has_suffix-any :
    (suffix : Text) (lines : List Line)
    → any (is_unreadable suffix) lines ≡ false
    → has_suffix suffix lines ≡ any (is_hit suffix) lines
has_suffix-any suffix [] readable = refl
has_suffix-any suffix (other_line ∷ rest) readable = has_suffix-any suffix rest readable
has_suffix-any suffix (entry s none ∷ rest) readable = ground (arith, has_suffix-any suffix rest)
has_suffix-any suffix (entry s (some n) ∷ rest) readable =
    ground (arith, has_suffix-any suffix rest)

-- An answer with readable counts refuses exactly the passwords that one of its lines counts; the
-- padding, which counts 0, refuses none, and neither does an error or no answer.
pub check_hibp-any :
    (suffix : Text) (status : ℕ) (lines : List Line)
    → any (is_unreadable suffix) lines ≡ false
    → (check_hibp suffix (some (status, lines)) ≡ ((status == 200) && any (is_hit suffix) lines))
      × (check_hibp suffix none ≡ false)
unfolding check_hibp
check_hibp-any suffix status lines readable = rw (has_suffix-any suffix lines readable) (refl, refl)
