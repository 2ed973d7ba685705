-- ===== src/Http/Server.antt =====
-- internal/platform/server/http_server.go. How the server ends is an input: what ListenAndServe,
-- Shutdown and Close returned, and whether the context was done before the server ended.
use async_job_poc.Time.{second}
use async_job_poc.Base.{ℕ, ◌*◌, [], ◌∷◌, if◌then◌else◌}
use async_job_poc.Text.{Text, bytes}
use async_job_poc.Errors.{Error, text, wrap, join, is, server_closed, Result, ok, err, wrapped}

abbrev pub read_header_timeout : ℕ
read_header_timeout = 5 * second

abbrev pub read_timeout : ℕ
read_timeout = 10 * second

abbrev pub write_timeout : ℕ
write_timeout = 15 * second

abbrev pub idle_timeout : ℕ
idle_timeout = 60 * second

-- The time that Run gives Shutdown.
abbrev pub shutdown_timeout : ℕ
shutdown_timeout = 10 * second

-- http.Server, as far as NewHTTPServer sets it, with the router `H`.
pub record HttpServer (H : Type 0) : Type 0 where
  pub address : Text
  pub handler : H
  pub read_header_timeout : ℕ
  pub read_timeout : ℕ
  pub write_timeout : ℕ
  pub idle_timeout : ℕ

-- NewHTTPServer
unfoldable pub new_http_server : {H : Type 0} → Text → H → HttpServer H
new_http_server address router = record {
  address = address;
  handler = router;
  read_header_timeout = read_header_timeout;
  read_timeout = read_timeout;
  write_timeout = write_timeout;
  idle_timeout = idle_timeout;
}

pub data Ending : Type 0 where
  -- The server ended by itself.
  returned : (served : Result (Unit {0})) → Ending
  -- The context was done first: the results of Shutdown, of Close and of the server.
  requested : (shutdown close served : Result (Unit {0})) → Ending

-- What the goroutine sends: nil for http.ErrServerClosed.
abbrev pub server_error : Result (Unit {0}) → Result (Unit {0})
server_error (ok _) = ok tt
server_error (err e) = if is e server_closed then ok tt else err e

-- errors.Join of an error and one that may be nil.
abbrev pub join_result : Error → Result (Unit {0}) → Error
join_result e (ok _) = e
join_result e (err f) = join e f

-- HTTPServer.Run
unfoldable pub run_http_server : Ending → Result (Unit {0})
run_http_server (returned served) =
    wrapped (text (bytes "run HTTP server: ") ∷ []) (server_error served)
run_http_server (requested (err e) close served) =
    err (join_result (wrap (text (bytes "gracefully shut down HTTP server: ") ∷ []) e []) close)
run_http_server (requested (ok _) close served) =
    wrapped (text (bytes "stop HTTP server: ") ∷ []) (server_error served)
