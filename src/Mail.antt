-- ===== src/Mail.antt =====
-- app/notifications/email.py: how a mail is sent.
--
-- The server is a parameter: whether a command ends without an exception. A mail's bodies and its
-- encoding are the library's; a mail is given by its subject, its From header and its recipient.
mod Sent
mod Tests
use lite_iam.Prelude.{
  Text, Bool, true, false, ◌&&◌, Option, none, some, List, [], ◌∷◌, ◌++◌, if◌then◌else◌, truthy,
  truthy?,
}

-- The SMTP settings of app/core/config.py; the empty text is 0.
pub record Smtp : Type 0 where
  pub host : Text
  pub user : Option Text
  pub password : Option Text
  pub from_address : Text
  pub tls : Bool

-- The From header: an address alone, or with a name by `formataddr`.
pub record Message : Type 0 where
  pub subject : Text
  pub from_name : Option Text
  pub sender : Text
  pub to : Text

pub data Command : Type 0 where
  connect ehlo starttls quit : Command
  login : Option Text → Option Text → Command
  -- The envelope's sender and recipient.
  sendmail : Text → Text → Message → Command

module _ (accepts : Command → Bool) where
  abbrev started : Command → List Command × Bool → List Command × Bool
  started c (sent, done) = (c ∷ sent, done)

  -- The commands up to the first one that raises, and whether none does.
  pub run_commands : List Command → List Command × Bool
  run_commands [] = ([], true)
  run_commands (c ∷ rest) =
      let later = run_commands rest in if accepts c then started c later else (c ∷ [], false)

  abbrev pub opening : Smtp → List Command
  opening smtp = if smtp.tls then connect ∷ ehlo ∷ starttls ∷ ehlo ∷ [] else connect ∷ []

  abbrev pub delivery : Smtp → Message → Text → List Command
  delivery smtp msg to =
      (if truthy? smtp.user && truthy? smtp.password
        then login smtp.user smtp.password ∷ []
        else [])
      ++ sendmail smtp.from_address to msg ∷ []

  -- After the opening: the delivery in its `try`, and the `finally`.
  abbrev pub delivered : List Command → List Command × Bool → List Command × Bool
  delivered opened (sent, done) = (opened ++ sent ++ quit ∷ [], done && accepts quit)

  -- `_send_sync`: the commands, and whether nothing was raised.
  pub send_sync : Smtp → Message → Text → List Command × Bool
  unfolding run_commands
  send_sync smtp msg to =
      let (opened, open') = run_commands (opening smtp) in
      if open' then delivered opened (run_commands (delivery smtp msg to)) else (opened, false)

  abbrev or_else : Option Text → Text → Text
  or_else none d = d
  or_else (some t) d = if truthy t then t else d

  abbrev none_if_empty : Option Text → Option Text
  none_if_empty none = none
  none_if_empty (some t) = if truthy t then some t else none

  abbrev pub message_of : Smtp → Text → Text → Option Text → Option Text → Message
  message_of smtp to subject from_address from_name = record {
    subject = subject;
    from_name = none_if_empty from_name;
    sender = or_else from_address smtp.from_address;
    to = to;
  }

  -- `send_email`: the commands; what is raised is only logged.
  pub send_email : Smtp → Text → Text → Option Text → Option Text → List Command
  unfolding send_sync
  send_email smtp to subject from_address from_name =
      if truthy smtp.host
      then (send_sync smtp (message_of smtp to subject from_address from_name) to).0
      else []
