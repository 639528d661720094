-- ===== src/Database.antt =====
-- app/core/database.py and the audit side of app/core/events.py: a request's session.
--
-- A session holds the tables as the request sees them (`live`) and as they were last committed
-- (`saved`). `get_session` commits when the handler returns and rolls back when it raises, so what
-- a failed request leaves behind is `saved`. Background tasks and mail are no part of the
-- transaction, nor is the worker's set of revoked ids: what a request adds to these is listed in
-- `spawned` and `blacklisted`, and stays there after a rollback.
mod State
mod Queries
pub mod Runs
pub mod Hoare
pub use State.*
pub use Queries.*
