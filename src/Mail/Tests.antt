-- ===== src/Mail/Tests.antt =====
-- A mail of a tenant with its own sender, over a server that takes everything.
use lite_iam.Prelude.{◌≡◌, refl, Bool, true, none, some, [], ◌∷◌}
use lite_iam.Mail.{
  Smtp, Command, connect, ehlo, starttls, quit, login, sendmail, run_commands, send_sync,
  send_email,
}

abbrev platform : Smtp
platform = record { host = 1; user = some 2; password = some 3; from_address = 4; tls = true }

abbrev takes_all : Command → Bool
takes_all c = true

sent :
    send_email takes_all platform 11 12 (some 13) (some 0)
    ≡ connect
      ∷ ehlo
      ∷ starttls
      ∷ ehlo
      ∷ login (some 2) (some 3)
      ∷ sendmail 4 11 (record { subject = 12; from_name = none; sender = 13; to = 11 })
      ∷ quit
      ∷ []
unfolding send_email send_sync run_commands
sent = refl

unconfigured : send_email takes_all (record platform { host = 0 }) 11 12 none none ≡ []
unfolding send_email
unconfigured = refl
