-- ===== src/Lib.antt =====
-- A model of nirantara: the edge agent that buffers game events and sends them to the cloud, the
-- service that enrolls devices by signing their certificates, and the client's side of that.
--
-- The parts and their files. An `Option` is a pointer that may be null or a result with an error
-- code, a `Bool` beside a state is a result code, and a byte is a number.
--   Common       strings and numbers of the C library, as the program uses them: `cstr`, `strstr`,
--                `strchr`, `strtoul` and `strtol` in base ten on 64 bits, and "%lld" as `print`.
--   Enrollment   the enrollment service, enrollment/.
--     Config       enrollment/src/config.c: `parse_u16`, `parse_long`, `load_allowlist`, and
--                  `nr_enroll_config_load` as `load`, a chain of steps on the configuration that
--                  ends at the first error. `Host` stands for the environment, the files and the
--                  outcome of allocations.
--     Der          `der_len_size`, `write_der_len` and the writing of the certificate in
--                  enrollment/src/enrollment.c.
--     Certificate  `valid_device_id` and `nr_enrollment_issue_certificate` as `issue_certificate`
--                  there, and in Certificate/Unsigned `build_unsigned_cert`. `Backend` stands for
--                  OpenSSL, the file system and the signing by AWS KMS, which Kms models; its calls
--                  that only succeed or fail are `CertCall`.
--     Http         enrollment/src/http.c: `send_all`, `send_response`, `copy_header_value` and
--                  `parse_content_length`; in Http/Request `read_request` over what the calls of
--                  `recv` come to, and `handle_client`, whose answer is `respond`.
--     Kms          enrollment/src/kms.c: the hexadecimal and JSON texts, the base64 code, the request
--                  as `build_authorization` (Kms/Authorization) signs it, and
--                  `nr_kms_sign_sha256_digest` as `sign_sha256_digest` (Kms/Sign). `Crypto` stands
--                  for OpenSSL, and `Service` for the clock and curl. Kms/SigV4 writes down the
--                  signing process of AWS for any request.
--     Server       the listener and `nr_enrollment_serve` of enrollment/src/http.c, over what the calls
--                  of `accept` come to, and enrollment/src/main.c as `service_main`.
--   Edge         the edge agent, edge/.
--     Sqlite       what edge/src/buffer.c calls of SQLite, with its statements, and the laws
--                  that the theorems rely on.
--     Postgres     what edge/src/sync.c calls of libpq, and the laws of its transactions.
--     Buffer       edge/src/buffer.c. The buffer is a database; the functions take it and return
--                  it with their result.
--     Sync         edge/src/sync.c: `extract_device_id`, `pg_flush` as `pg_upsert` (the server) and
--                  the marking of rows, `do_sync` on the databases by their paths, and the sync
--                  thread with the `stop` flag as a function of the number of the load.
--     Agent        edge/src/main.c: the configuration, the callbacks, and `main` as the acts of a run
--                  over `System`, what the calls of the system and of libmosquitto come to.
--     Delivery     the way of a message: `on_message` and `do_sync` as steps on the disk and the
--                  server, in any order, and a `do_sync` in which messages arrive (Overlap).
--   Net          the client library, lib/nirantara-net/.
--     Enroll       `nr__enroll_request` of lib/nirantara-net/src/enroll.c; `Connection` stands for
--                  the socket and OpenSSL.
--     Client       `struct nr_ctx` as `ClientContext`, lib/nirantara-net/src/tls.c and keystore.c;
--                  in Client/Csr `nr__enroll_build_csr`, in Client/Mqtt mqtt.c, and in Client/Api
--                  net.c, the functions without their `nr_`. `Objects`, `OpenSsl` and `Mosquitto` stand for
--                  the libraries, and `TempFiles` for the files in /tmp. Client/Api/States has the
--                  calls of a program and of libmosquitto as steps, and Client/Enrolling an
--                  enrollment from `nr_enroll` to the service and back.
-- The three share no code; all stand on Common. The client and the service meet in the bytes of a
-- request (Net/Enroll/Request, Parsed and Served) and of its answer (Net/Enroll/Headers and Reply).
-- In the agent, Sync reads and marks rows through Buffer, on a connection of its own.
--
-- Bounds: `count_bytes` makes at most 8 rounds, since a `size_t` has 8 bytes. The search of a
-- header has as many rounds as there are bytes of headers, and each takes a line of two bytes or
-- more. The outer loop of the sync thread has fuel for its rounds, each of which loads `stop`, and
-- so has the main loop of the agent, which loads `g_running`. The loops over the slots of a client
-- and over the polls for its connection have the rounds of the source.
--
-- Not modelled: the lock of a client's subscriptions, so that a call is one step; a signal that
-- interrupts a call of the agent, whose handler is a step of its own; a `calloc` of `pg_flush` that
-- fails; memory that is returned, except where a theorem is about it; log output; the build files,
-- the scripts and the documents.
pub mod Common
pub mod Enrollment
pub mod Edge
pub mod Net
