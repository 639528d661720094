-- ===== src/External.antt =====
-- What the program calls and does not implement: hashing, encryption, one-time passwords and text
-- functions of the Python libraries. Each definition that uses them takes them as an argument.
use lite_iam.Prelude.{ℕ, Text, Bool, Option, List}

pub record External : Type 0 where
  -- hashlib.sha256(text).hexdigest()
  pub sha256 : Text → Text
  -- Fernet.encrypt
  pub encrypt : Text → Text
  -- Fernet.decrypt; `none` is InvalidToken
  pub decrypt : Text → Option Text
  -- pyotp.TOTP(secret).verify(code, valid_window=1) at a time
  pub totp_verify : Text → Text → ℕ → Bool
  -- text.strip().upper()
  pub strip_upper : Text → Text
  -- text.lower()
  pub lower : Text → Text
  -- text.strip()
  pub strip : Text → Text
  -- f"{a}:{b}"
  pub colon : Text → Text → Text
  -- PasswordHasher.verify(hash, password), false where it raises
  pub argon2_verify : Text → Text → Bool
  -- base64.urlsafe_b64encode(hashlib.sha256(text).digest()) without padding
  pub s256 : Text → Text
  -- text.split()
  pub words : Text → List Text
  -- `part in text`
  pub has_substring : Text → Text → Bool
  -- the id and the secret of an `Authorization: Basic` header, if it is one and decodes
  pub basic_credentials : Text → Option (Text × Text)
  -- str(uuid) and uuid.UUID(text), `none` where that raises
  pub str_uuid : ℕ → Text
  pub as_uuid : Text → Option ℕ
  -- f"client:{client_id}"
  pub client_subject : Text → Text
  -- the `kid` of jwt.get_unverified_header, `none` where that raises
  pub jwt_kid : Text → Option Text
  -- jwt.encode(claims, private_pem, headers={"kid": kid}): private_pem, kid, claims
  pub jwt_encode : Text → Text → List (Text × Text) → Text
  -- jwt.decode for the service's audience: public_pem, token, verify_exp, time
  pub jwt_decode : Text → Text → Bool → ℕ → Option (List (Text × Text))
  -- ipaddress.ip_address(text), `none` where that raises
  pub as_ip : Text → Option ℕ
  -- `ip in ipaddress.ip_network(cidr, strict=False)`, `none` where that raises
  pub in_network : ℕ → Text → Option Bool
