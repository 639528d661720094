-- ===== src/Models.antt =====
-- The tables of app/models, a record for each that the modelled code reads or writes.
mod Account
mod Ticket
mod Oauth
mod Credential
mod Activity
pub use Account.*
pub use Ticket.*
pub use Oauth.*
pub use Credential.*
pub use Activity.*
