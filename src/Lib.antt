-- ===== src/Lib.antt =====
-- LiteIAM: the security core of an identity server (Python, FastAPI and SQLAlchemy).
--
-- A request runs in one database session, which commits when its handler returns and rolls back
-- when it raises. Handlers are functions of that session: they read and write tables, raise HTTP
-- errors, and start tasks that a rollback does not take back. The parts call each other as the
-- program does: login asks the IP policy, the trusted devices and the second factor; the token
-- endpoint asks the clients, the tables of codes and tokens and the signer; the token reader asks
-- the worker's set of revoked ids; a pending token of a login is taken up by the step-up; what an
-- administrator writes is read by the login and by the signer; the personal access tokens that the
-- endpoints create are looked up by the middleware, which leaves the user to the dependencies; an
-- enterprise sign-in upserts accounts as that with Google does, and adds roles to the policies that
-- the workers share; a sign-out and an erasure shut what login, tokens and grants had opened.
--
-- Files, and the code that they model:
--   Models      app/models: a record for each table, with the columns that the code reads.
--   Settings    app/core/config.py: the settings that the code reads.
--   Database    app/core/database.py (get_session) and emit of app/core/events.py: the session,
--               with the tables as the request sees them and as last committed, handlers as a
--               state and exception monad, and in Hoare their pre- and postconditions.
--   External    what the libraries do (hashes, Fernet, pyotp, PyJWT, argon2, ipaddress, uuid,
--               text functions): a record that each definition takes as an argument.
--   Login       login of app/api/v1/auth.py, in the stages that its comments name: resolve, gate,
--               check_lockout, check_password, record_success, step_up.
--   Mfa         app/mfa/orchestrator.py, and in Totp app/mfa/totp.py: enrolment and activation,
--               verify_totp with its cooldown, backup codes.
--   Oauth       app/server/endpoints.py: Client has the checks of app/models/client.py and the
--               authentication of clients, Authorize the two handlers that issue codes, Grant the
--               code and the refresh grant, Endpoint the token, revoke and introspect endpoints,
--               and Rotation runs of these as a step relation.
--   Tokens      app/tokens/strategy.py: the claims of the signed tokens, their readers, and in Cache the
--               tenant records that a worker keeps.
--   Revocation  app/tokens/revocation.py: the table of revoked ids and the set of a worker.
--   IpPolicy    app/authz/ip_policy.py.
--   Devices     app/sessions/trusted_device.py.
--   RateLimit   the counter of app/middleware/reg_rate_limit.py.
--   Pat         app/middleware/pat_auth.py, Endpoints app/api/v1/tokens.py, and Access
--               app/identity/dependencies.py.
--   Invitation  app/identity/invitation.py, and Endpoints app/api/v1/invitations.py.
--   Password    app/identity/password.py: validate_password and the history, and in Manager the
--               hooks of UserManager, the breach list and the rehash.
--   MagicLink   app/api/v1/magic_link.py.
--   EmailOtp    app/api/v1/email_otp.py.
--   EmailChange app/api/v1/email_change.py.
--   Sessions    app/api/v1/sessions.py.
--   StepUp      totp_verify, mfa_backup_verify and totp_disable of app/api/v1/auth.py.
--   Signup      create_tenant, _unique_tenant_slug and signup of app/api/v1/auth.py.
--   Social      app/identity/social.py, and Callback google_callback of app/api/v1/auth.py.
--   SigningKeys app/tokens/keys.py and app/tokens/scheduler.py, and Jwks app/api/v1/jwks.py.
--   Webhooks    _dispatch_webhooks and _deliver_with_retry of app/core/events.py.
--   Admin       Users app/admin/users.py, IpPolicy app/admin/ip_policy.py, JwtClaims
--               app/admin/jwt_claims.py, Webhooks app/admin/webhooks.py, EmailSender
--               app/admin/email_sender.py and resolve_tenant_sender of app/notifications/email.py,
--               Audit app/admin/audit.py and the retention of app/core/events.py.
--   Passkey     app/identity/passkey.py and app/api/v1/passkey.py.
--   Authz       app/authz/enforcer.py, policies.py and watcher.py.
--   Enterprise  app/identity/enterprise.py and app/api/v1/enterprise.py.
--   LoginHistory app/api/v1/login_history.py.
--   Gdpr        app/api/v1/gdpr.py.
--   Account     sign-out, password reset and trusted devices of app/api/v1/auth.py.
--   HttpClients app/shared/http_clients.py.
--   Mail        send_email and _send_sync of app/notifications/email.py.
--   TenantBind  app/middleware/tenant_bind.py, app/tenant/router.py and isolation.py.
--   Prelude, Literals, Fixtures: shared helpers, the texts of the source, inputs of the tests.
--
-- How the code is modelled. Ids and opaque texts are natural numbers, since the code only compares
-- them, and 0 is the empty text, which Python takes for false; a password is the list of its
-- character codes. Times are whole seconds. A table is a list of rows; a query for one row takes
-- the first that passes, an UPDATE changes each row that passes. Random values (ids, tokens,
-- codes) are arguments, and where a result needs them to be new it says so. A condition of a query
-- that is Python's `not` or `is None` on a mapped class attribute is a constant, and is modelled
-- as what it evaluates to. Loops are structural recursion, so there is no fuel. What slowapi
-- answers to a login or a step-up, whether the request is within the limit, is a field of the
-- request.
--
-- Not modelled: two requests that interleave on one row, as each runs whole here; metrics and
-- logs; the limits of slowapi on the other endpoints; the texts of mails and their delivery after
-- the server has them, and the request of a webhook; a notification that is lost; the pages and
-- the headers that middleware adds. The decisions of Casbin, the checks of WebAuthn and what
-- providers answer are parameters, being code of third parties.
pub mod Prelude
pub mod Models
pub mod Database
pub mod External
pub mod Settings
pub mod Mfa
pub mod Fixtures
pub mod Literals
pub mod Oauth
pub mod Tokens
pub mod Revocation
pub mod IpPolicy
pub mod Devices
pub mod Login
pub mod RateLimit
pub mod Pat
pub mod Invitation
pub mod Password
pub mod MagicLink
pub mod EmailOtp
pub mod EmailChange
pub mod Sessions
pub mod Signup
pub mod Admin
pub mod Webhooks
pub mod Social
pub mod SigningKeys
pub mod StepUp
pub mod Passkey
pub mod Authz
pub mod Enterprise
pub mod LoginHistory
pub mod Gdpr
pub mod Account
pub mod HttpClients
pub mod TenantBind
pub mod Mail
