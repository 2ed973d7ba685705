-- ===== src/Mysql/Connection.antt =====
-- internal/platform/database/mysql.go. GORM and the driver are a parameter. A connection is an
-- option: a *MySQL that may be nil, or have no gorm.DB.
use async_job_poc.Base.{ℕ, ℤ, Option, none, some, [], ◌∷◌}
use async_job_poc.Text.{Text, bytes}
use async_job_poc.Time.{Time}
use async_job_poc.Errors.{foreign, text, ok, err}
use async_job_poc.UseCase.Action.{Action, pure, fail, call, or_fail, lift, prefix, ◌>>◌}
use async_job_poc.Mysql.Options.{
  MysqlOptions, validate_mysql_options, DriverConfig, GormConfig, driver_config, gorm_config,
  default_max_open_connections, default_max_idle_connections, default_connection_lifetime,
}

pub record MysqlDriver (W : Type 0) : Type 0 where
  pub time_now : W → Time × W
  -- %d of package fmt
  pub itoa : ℤ → Text
  -- gorm.Open on the DSN of the configuration
  pub gorm_open : DriverConfig → GormConfig W → Action W (Unit {0})
  -- gormDB.DB()
  pub sql_db : Action W (Unit {0})
  -- SetMaxOpenConns, SetMaxIdleConns and SetConnMaxLifetime of the sql.DB
  pub set_max_open_conns : ℕ → W → Unit {0} × W
  pub set_max_idle_conns : ℕ → W → Unit {0} × W
  pub set_conn_max_lifetime : ℕ → W → Unit {0} × W
  -- PingContext and Close of the sql.DB
  pub ping : Action W (Unit {0})
  pub close : Action W (Unit {0})

module _ {W : Type 0} (driver : MysqlDriver W) where
  -- A ping that fails closes the connection.
  pub first_ping : Action W (Unit {0})
  first_ping w = elim (driver.ping w).0 [
    | ok _ ↦ (ok tt, (driver.ping w).1)
    | err e ↦
        (err (prefix (text (bytes "ping MySQL: ") ∷ []) e), (driver.close (driver.ping w).1).1)
  ]

  -- OpenMySQL after the options are validated.
  unfoldable pub connect_mysql : MysqlOptions → Action W (Unit {0})
  unfolding first_ping
  connect_mysql options = do
    or_fail (prefix (text (bytes "open MySQL connection: ") ∷ []))
        (driver.gorm_open (driver_config driver.itoa options) (gorm_config driver.time_now))
    or_fail (prefix (text (bytes "access underlying MySQL connection: ") ∷ [])) driver.sql_db
    call (driver.set_max_open_conns default_max_open_connections)
    call (driver.set_max_idle_conns default_max_idle_connections)
    call (driver.set_conn_max_lifetime default_connection_lifetime)
    first_ping

  -- OpenMySQL
  unfoldable pub open_mysql : MysqlOptions → Action W (Unit {0})
  open_mysql options = do lift (validate_mysql_options options); connect_mysql options

  -- MySQL.Ping
  unfoldable pub ping_mysql : Option (Unit {0}) → Action W (Unit {0})
  ping_mysql none = fail (foreign (bytes "MySQL connection is not initialized"))
  ping_mysql (some _) = do
    or_fail (prefix (text (bytes "access underlying MySQL connection: ") ∷ [])) driver.sql_db
    or_fail (prefix (text (bytes "ping MySQL: ") ∷ [])) driver.ping

  -- MySQL.Close
  unfoldable pub close_mysql : Option (Unit {0}) → Action W (Unit {0})
  close_mysql none = pure tt
  close_mysql (some _) = do
    or_fail (prefix (text (bytes "access underlying MySQL connection: ") ∷ [])) driver.sql_db
    or_fail (prefix (text (bytes "close MySQL connection: ") ∷ [])) driver.close
