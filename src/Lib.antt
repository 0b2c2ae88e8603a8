-- ===== src/Lib.antt =====
-- tmdb-mirror: a Rust mirror of TMDB metadata, with a durable job queue in PostgreSQL, a metadata
-- worker, a media worker and an HTTP API. The modules model the code that decides: validation,
-- retries, loops, parsers. Each function of the source is a definition here, with the name that it
-- has there. The parts of the program, and the modules that model them:
--
-- - crates/tmdb-jobs: the client of the job queue and the worker that takes jobs from it.
--   Jobs/Error.antt and Jobs/Model.antt are error.rs and model.rs, Jobs/Repository.antt is
--   repository.rs with submit_many in Jobs/Repository/Batch.antt and the leases in
--   Jobs/Repository/Lease.antt, and Jobs/Worker.antt is worker.rs with the polling loop in
--   Jobs/Worker/Loop.antt and the heartbeat in Jobs/Worker/Heartbeat.antt. The repository is what the
--   worker calls: its state is the database's, passed from query to query.
-- - apps/tmdb-images/src/image.rs: Images/Header.antt and its child modules are the reading of image
--   headers, by which the media worker refuses images before they are stored;
--   Images/Payload.antt is the payload of an image job, and the path at which its image is put;
--   Images/Download.antt is the redirect loop of a download and the checks of its response, and
--   Images/Download/Whole.antt the download with its fallback.
-- - crates/tmdb-media/src/lib.rs: Media.antt is the layout of the media directory, the paths that
--   Images/Payload.antt uses and the test by which a path may be served.
-- - crates/tmdb-upstream: the HTTP client of TMDB. Upstream/Policy.antt is policy.rs, with the gate
--   that spaces requests; Upstream/Client.antt is the request loop of client.rs, which waits at the
--   gate and classifies responses; Upstream/Export.antt is parser.rs, which reads daily exports.
-- - crates/tmdb-domain: Domain.antt is the media type of media.rs.
-- - apps/tmdb-ingest/src/jobs.rs: the metadata worker. Ingest/Payload.antt is the payloads of its jobs
--   with parse_job and the keys, Ingest/Payload/Reading.antt the readers that serde derives from the
--   attributes, Ingest/Build.antt the jobs that it builds, Ingest/Submit.antt the transactions in
--   which it submits them to the queue of crates/tmdb-jobs, and Ingest/Scan.antt the phases of a
--   catalog scan, each of which queues the job of the next. Ingest/Export.antt is the batches of a daily
--   export, with the jobs that they queue in Ingest/Export/Queue.antt, Ingest/Windows.antt the window of
--   the daily synchronisation, Ingest/Errors.antt what upstream errors become, and
--   Ingest/Documents.antt the documents that a stored one links to.
-- - apps/tmdb-ingest/src/scheduler.rs: Ingest/Schedule.antt is the schedules of the scans and the round
--   of each tick, with its daily window in Ingest/Windows.antt.
-- - Prelude.antt holds what Rust's library gives: numbers, texts as lists of code points or bytes,
--   results, integers with a sign, and slices that panic out of range (Prelude/Exec.antt).
--
-- What stands outside of the code is a parameter. Platform (Jobs/Model.antt) is serde_json's
-- values and their encoding, and chrono's dates. Database (Jobs/Repository.antt) is PostgreSQL, a
-- function from a query and the database's state to an answer and a new state; nothing is assumed
-- of the answers. The image decoder, the parser of URLs, the parser of HTTP dates, serde's
-- reading of a record and the largest instant of the platform are arguments where they are used.
-- Json (Ingest/Json.antt) is what the metadata worker uses of serde_json and of chrono's serde
-- support, with its documented behaviour in IsJson; Transactions (Ingest/Submit.antt) and Catalog
-- (Ingest/Scan.antt) are the statements on its database, of which a property assumes, by name, that
-- only a commit shows writes to others, or that a query selects the rows that its text says. How
-- dates and digests print is an argument. A file is its bytes, with the offsets at which a read fails
-- (ExportFile in Ingest/Export.antt); the accessors of JSON values are Access (Ingest/Documents.antt), and
-- the row of the daily synchronisation is SyncState (Ingest/Windows.antt); the patterns and instants of
-- the scheduler are Clock (Ingest/Schedule.antt).
-- A race that tokio decides, such as the worker's select between an execution and a heartbeat, is
-- a value that the model takes, one for each way it can end.
--
-- Bounds and fuel. Unsigned integers are natural numbers with their bound written out where the
-- code checks or saturates, durations and instants are nanoseconds or microseconds as the code has
-- them. The loops over JPEG segments and fill bytes run on fuel that the length of the body bounds,
-- as each round moves the offset on; the scan of an export runs on fuel that exceeds the bytes, as
-- each round takes a line that is not empty. So do the jobs of an export, each of which takes a
-- line at least. The search for links goes as deep as a document is nested. Retry loops are
-- structural in the attempts left. The polling loop is a function of the list of rounds that have
-- happened so far.
--
-- Not modelled: the SQL of crates/tmdb-db and the statements inside of the applications, the axum
-- handlers of apps/tmdb-api, the catalog writes of apps/tmdb-ingest and the requests of its
-- executor, the transport and the store of apps/tmdb-images, the configuration of the programs and
-- logging. Most of that is input and output around statements whose meaning lies in the database.
pub mod Prelude
pub mod Jobs
pub mod Images
pub mod Upstream
pub mod Media
pub mod Domain
pub mod Ingest
mod Tests
