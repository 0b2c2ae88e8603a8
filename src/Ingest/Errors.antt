-- ===== src/Ingest/Errors.antt =====
-- apps/tmdb-ingest/src/jobs.rs: what the failure of an upstream request becomes.
pub mod Recorded
use tmdb_mirror.Prelude.{ℕ, ◌*◌, Option, none, some, min, Text, codes}
use tmdb_mirror.Jobs.Worker.{JobExecutionError, retry, dead_letter_error}
use tmdb_mirror.Upstream.Client.{
  TmdbClientError, invalid_base_url, invalid_path, http_client_build, transport, response_too_large,
  export_size_limit, invalid_export_destination, export_storage, unauthorized_error,
  not_found_error, not_modified_error, policy, rate_limit, forbidden_error, upstream_server,
  permanent_http, malformed_json,
}
use tmdb_mirror.Ingest.Build.{invalid, seconds}

-- `retry_after.unwrap_or(1).min(600)`, in seconds.
abbrev pub wait_seconds : Option ℕ → ℕ
wait_seconds none = 1
wait_seconds (some n) = min n 600

abbrev pub upstream_unavailable : JobExecutionError
upstream_unavailable = retry (codes "upstream_unavailable") (seconds 5)

unfoldable pub map_upstream_error : TmdbClientError → JobExecutionError
map_upstream_error (rate_limit retry_after) =
    retry (codes "rate_limited") (seconds (wait_seconds retry_after))
map_upstream_error transport = upstream_unavailable
map_upstream_error response_too_large = upstream_unavailable
map_upstream_error (upstream_server status) = upstream_unavailable
map_upstream_error unauthorized_error = dead_letter_error (codes "upstream_unauthorized")
map_upstream_error (forbidden_error decision) = invalid
map_upstream_error not_found_error = invalid
map_upstream_error not_modified_error = invalid
map_upstream_error (permanent_http status) = invalid
map_upstream_error (malformed_json endpoint) = invalid
map_upstream_error invalid_base_url = invalid
map_upstream_error invalid_path = invalid
map_upstream_error http_client_build = invalid
map_upstream_error (policy e) = invalid
map_upstream_error export_size_limit = invalid
map_upstream_error invalid_export_destination = invalid
map_upstream_error export_storage = retry (codes "export_storage") (seconds 30)

unfoldable pub upstream_error_reason : TmdbClientError → Text
upstream_error_reason invalid_base_url = codes "invalid_base_url"
upstream_error_reason invalid_path = codes "invalid_path"
upstream_error_reason http_client_build = codes "http_client_build_failed"
upstream_error_reason (policy e) = codes "request_policy_failed"
upstream_error_reason transport = codes "transport_failed"
upstream_error_reason response_too_large = codes "response_too_large"
upstream_error_reason export_size_limit = codes "export_size_limit"
upstream_error_reason invalid_export_destination = codes "invalid_export_destination"
upstream_error_reason export_storage = codes "export_storage_failed"
upstream_error_reason (rate_limit retry_after) = codes "rate_limited"
upstream_error_reason unauthorized_error = codes "unauthorized"
upstream_error_reason (forbidden_error decision) = codes "forbidden"
upstream_error_reason not_found_error = codes "not_found"
upstream_error_reason not_modified_error = codes "not_modified"
upstream_error_reason (upstream_server status) = codes "upstream_server_error"
upstream_error_reason (permanent_http status) = codes "permanent_http_error"
upstream_error_reason (malformed_json endpoint) = codes "malformed_json"

unfoldable pub upstream_http_status : TmdbClientError → ℕ
upstream_http_status unauthorized_error = 401
upstream_http_status (forbidden_error decision) = 403
upstream_http_status not_found_error = 404
upstream_http_status not_modified_error = 304
upstream_http_status (rate_limit retry_after) = 429
upstream_http_status (upstream_server status) = status
upstream_http_status (permanent_http status) = status
upstream_http_status _ = 0
