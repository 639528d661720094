-- ===== src/Mail/Sent.antt =====
-- app/notifications/email.py: what a server gets of a mail.
use lite_iam.Prelude.{
  Text, ◌≡◌, Bool, true, false, not, ◌||◌, ◌==◌, Option, count_where, arith, ◌⊎◌,
}
use lite_iam.Mail.{
  Smtp, Command, connect, ehlo, starttls, quit, login, sendmail, run_commands, send_sync,
  send_email,
}

-- An envelope that is not the platform's, or goes to another recipient.
abbrev pub is_foreign : Smtp → Text → Command → Bool
is_foreign smtp to (sendmail from_address recipient msg) =
    not (from_address == smtp.from_address) || not (recipient == to)
is_foreign smtp to connect = false
is_foreign smtp to ehlo = false
is_foreign smtp to starttls = false
is_foreign smtp to quit = false
is_foreign smtp to (login user password) = false

-- A command with a password or a mail in it.
abbrev pub is_secret : Command → Bool
is_secret (sendmail from_address recipient msg) = true
is_secret (login user password) = true
is_secret connect = false
is_secret ehlo = false
is_secret starttls = false
is_secret quit = false

abbrev pub is_quit : Command → Bool
is_quit quit = true
is_quit connect = false
is_quit ehlo = false
is_quit starttls = false
is_quit (login user password) = false
is_quit (sendmail from_address recipient msg) = false

module _ (accepts : Command → Bool) (smtp : Smtp) (to subject : Text)
    (from_address from_name : Option Text) where
  -- The envelope is the platform's and goes to the recipient alone, whatever sender a tenant has;
  -- and once a password or a mail was sent, the connection is closed.
  pub envelope_kept :
      (count_where (is_foreign smtp to) (send_email accepts smtp to subject from_address from_name)
        ≡ 0)
      × (count_where is_secret (send_email accepts smtp to subject from_address from_name) ≡ 0
          ⊎ count_where is_quit (send_email accepts smtp to subject from_address from_name) ≡ 1)
  unfolding send_email send_sync run_commands
  envelope_kept = (ground arith, ground arith)

  -- With SMTP_TLS, nothing that is secret is sent to a server that does not start TLS.
  pub refused_tls :
      smtp.tls ≡ true
      → accepts starttls ≡ false
      → count_where is_secret (send_email accepts smtp to subject from_address from_name) ≡ 0
  unfolding send_email send_sync run_commands
  refused_tls secured refused = ground arith
