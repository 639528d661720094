-- ===== src/Devices/Tests.antt =====
-- Ada's laptop with the cookie 5, trusted at time 100.
use lite_iam.Database.{Db, get_session}
use lite_iam.Fixtures.{plain, no_rows}
use lite_iam.Devices.{create_trusted_device}

abbrev trusting : Db
trusting = (get_session (create_trusted_device plain 1 3 5 80 100) no_rows).1
