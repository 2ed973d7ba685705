-- ===== src/Mysql/Options.antt =====
-- internal/platform/database/mysql.go: the options of a connection, and what OpenMySQL makes of them.
use async_job_poc.Base.{
  ℕ, ◌*◌, ℤ, pos, Bool, true, false, not, ◌||◌, List, [], ◌∷◌, ◌++◌, length, ◌==◌, ltb_ℤ,
  if◌then◌else◌,
}
use async_job_poc.Time.{Time, second, utc}
use async_job_poc.Text.{Text, bytes}
use async_job_poc.Errors.{foreign, Result, ensure, ◌>>◌}

pub record MysqlOptions : Type 0 where
  pub host : Text
  pub port : ℤ
  pub database : Text
  pub user : Text
  pub password : Text

-- The test of a port in the two validators of options.
abbrev pub is_out_of_range : ℤ → Bool
is_out_of_range port = ltb_ℤ port (pos 1) || ltb_ℤ (pos 65535) port

-- validateMySQLOptions
unfoldable pub validate_mysql_options : MysqlOptions → Result (Unit {0})
validate_mysql_options options = do
  ensure (not (length options.host == 0)) (foreign (bytes "MySQL host is required"))
  ensure (not (is_out_of_range options.port))
      (foreign (bytes "MySQL port must be between 1 and 65535"))
  ensure (not (length options.database == 0)) (foreign (bytes "MySQL database is required"))
  ensure (not (length options.user == 0)) (foreign (bytes "MySQL user is required"))
  ensure (not (length options.password == 0)) (foreign (bytes "MySQL password is required"))

has_colon : Text → Bool
has_colon [] = false
has_colon (c ∷ s) = c == b':' || has_colon s

-- net.JoinHostPort
unfoldable pub join_host_port : (host port : Text) → Text
unfolding has_colon
join_host_port host port =
    if has_colon host then b'[' ∷ host ++ bytes "]:" ++ port else host ++ b':' ∷ port

abbrev pub default_max_open_connections : ℕ
default_max_open_connections = 25

abbrev pub default_max_idle_connections : ℕ
default_max_idle_connections = 10

abbrev pub default_connection_lifetime : ℕ
default_connection_lifetime = 30 * 60 * second

abbrev pub default_connection_timeout : ℕ
default_connection_timeout = 5 * second

-- driver.Config, without Loc, which is UTC. Durations are numbers of nanoseconds.
pub record DriverConfig : Type 0 where
  pub user : Text
  pub passwd : Text
  pub net : Text
  pub addr : Text
  pub db_name : Text
  pub params : List (Text × Text)
  pub collation : Text
  pub parse_time : Bool
  pub timeout : ℕ
  pub read_timeout : ℕ
  pub write_timeout : ℕ
  pub allow_native_passwords : Bool
  pub check_conn_liveness : Bool

-- The configuration of the driver, for the digits of a number in %d.
unfoldable pub driver_config : (itoa : ℤ → Text) → MysqlOptions → DriverConfig
driver_config itoa options = record {
  user = options.user;
  passwd = options.password;
  net = bytes "tcp";
  addr = join_host_port options.host (itoa options.port);
  db_name = options.database;
  params = (bytes "charset", bytes "utf8mb4") ∷ [];
  collation = bytes "utf8mb4_0900_ai_ci";
  parse_time = true;
  timeout = default_connection_timeout;
  read_timeout = default_connection_timeout;
  write_timeout = default_connection_timeout;
  allow_native_passwords = true;
  check_conn_liveness = true;
}

-- gorm.Config, without its logger, which is silent.
pub record GormConfig (W : Type 0) : Type 0 where
  pub prepare_stmt : Bool
  pub translate_error : Bool
  pub now_func : W → Time × W

-- The configuration of GORM, for time.Now.
abbrev pub gorm_config : {W : Type 0} → (time_now : W → Time × W) → GormConfig W
gorm_config time_now = record {
  prepare_stmt = true;
  translate_error = true;
  now_func = λ w. (utc (time_now w).0, (time_now w).1);
}
