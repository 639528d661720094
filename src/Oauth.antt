-- ===== src/Oauth.antt =====
-- app/server/endpoints.py and the checks of app/models/client.py: the OAuth2 server.
pub mod Client
pub mod Authorize
pub mod Grant
pub mod Endpoint
pub mod Rotation
mod Tests
