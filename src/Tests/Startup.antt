-- ===== src/Tests/Startup.antt =====
-- A configuration, and the worker that runs with it.
use mathlib.Core.List.{Permᴰ}
use mathlib.Core.List.Permᴰ as Permutation
use async_job_poc.Base.{◌≡◌, refl, ◌↔◌, pos, false, none, some, List, [], ◌∷◌, if◌then◌else◌}
use async_job_poc.Text.{Text, bytes, text_eq, trim_space, to_lower}
use async_job_poc.Errors.{Result, ok, err, foreign}
use async_job_poc.Config.Atoi.{atoi}
use async_job_poc.Config.{
  Config, Environment, load, read, validate, validation_errors, missing_values, validate_port,
  validate_http_address, is_supported_environment, is_supported_log_level, int_from_environment,
  value_or_default,
}
use async_job_poc.Config.Valid.{IsValid}
use async_job_poc.Config.Reading.{IsReadFrom}
use async_job_poc.Config.Loading.{load_iff}
use async_job_poc.Redis.{Client}
use async_job_poc.Startup.{Platform}
use async_job_poc.Startup.WorkerMain.{Handlers, run_worker}
use async_job_poc.Startup.Running.{IsRun}
use async_job_poc.Startup.Programs.{assembled_pool, run_worker-IsRun}
use async_job_poc.Tests.World.{World, ports, repository, an_id}
use async_job_poc.Tests.UseCases.{empty}

abbrev get : List (Text × Text) → Environment
get [] name = none
get ((n, value) ∷ rest) name = if text_eq n name then some value else get rest name

abbrev environment : Environment
environment = get (
    (bytes "MYSQL_HOST", bytes "mysql")
    ∷ (bytes "MYSQL_DATABASE", bytes "jobs")
    ∷ (bytes "MYSQL_USER", bytes "app")
    ∷ (bytes "MYSQL_PASSWORD", bytes "secret")
    ∷ (bytes "MYSQL_PORT", bytes "3307")
    ∷ (bytes "REDIS_HOST", bytes "redis")
    ∷ (bytes "REDIS_DB", bytes " ")
    ∷ (bytes "LOG_LEVEL", bytes " WARN ")
    ∷ [])

-- net.SplitHostPort on an address without a host.
abbrev split_host_port : Text → Result Text
split_host_port [] = err (foreign (bytes "missing port in address"))
split_host_port (c ∷ port) = ok port

abbrev cfg : Config
cfg = record {
  app = record { environment = bytes "development" };
  http = record { address = bytes ":8080" };
  ui = record { assets_directory = bytes "web/dist" };
  mysql = record {
    host = bytes "mysql";
    port = pos 3307;
    database = bytes "jobs";
    user = bytes "app";
    password = bytes "secret";
  };
  redis = record {
    host = bytes "redis";
    port = pos 6379;
    password = [];
    db = pos 0;
    queue_name = bytes "jobs:pending";
  };
  log = record { level = bytes "WARN" };
}

abbrev in_order : List (Text × Text) → List (Text × Text)
in_order values = values

in_order_lem : (values : List (Text × Text)) → Permᴰ (in_order values) values
in_order_lem values = Permutation.refl values

loads : load split_host_port in_order environment ≡ ok cfg
unfolding load read validate validation_errors missing_values validate_port validate_http_address
    is_supported_environment is_supported_log_level int_from_environment value_or_default atoi
    trim_space to_lower text_eq
loads = refl

load_iff_example :
    (load split_host_port in_order environment ≡ ok cfg)
    ↔ (IsReadFrom environment cfg × IsValid split_host_port cfg)
load_iff_example = load_iff split_host_port in_order in_order_lem environment cfg

abbrev client : Client World
client = record {
  lpush = λ name id w. (ok tt, record w { queue = id ∷ w.queue });
  brpop = λ name w. (err (foreign (bytes "empty")), w);
}

abbrev platform : Platform World
platform = record {
  environment = environment;
  split_host_port = split_host_port;
  visit = in_order;
  mysql = record {
    itoa = λ n. [];
    time_now = (ports false).now;
    gorm_open = λ config gorm w. (ok tt, w);
    set_max_open_conns = λ n w. (tt, w);
    set_max_idle_conns = λ n w. (tt, w);
    set_conn_max_lifetime = λ n w. (tt, w);
    sql_db = λ w. (ok tt, w);
    ping = λ w. (ok tt, w);
    close = λ w. (ok tt, w);
  };
  redis = record {
    itoa = λ n. [];
    new_client = λ options w. (tt, w);
    ping = λ w. (ok tt, w);
    close = λ w. (ok tt, w);
  };
  repository = repository;
  client = client;
  now = (ports false).now;
  status_persisted = (ports false).status_persisted;
}

-- A pool that queues one ID.
abbrev handlers : Handlers World
handlers = record {
  send_email = λ duration j w. (ok tt, w);
  report_generation = λ duration j w. (ok tt, w);
  data_cleanup = λ duration j w. (ok tt, w);
  run_pool = λ process_job name. process_job.enqueue an_id;
}

run_worker-IsRun_example :
    IsRun platform (assembled_pool platform handlers) empty (run_worker platform handlers empty)
run_worker-IsRun_example = run_worker-IsRun platform handlers in_order_lem empty
