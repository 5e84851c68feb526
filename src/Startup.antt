-- ===== src/Startup.antt =====
-- config/config.go, pkg/logging/logger.go and the start of cmd/server/main.go: what the server makes of
-- its environment variables.
pub mod Trimmed
pub mod Laws
pub mod Tests
use payments_engine.Base.{
  Bool, true, false, not, ◌&&◌, [], ◌∷◌, ◌++◌, Text, text, ◌==◌, text_eq, if◌then◌else◌,
}
use payments_engine.Base.Strings.{trim_space}
use payments_engine.Error.{message, Result, ok, err}
use payments_engine.Api.Reports.{default_clearing_code}
use payments_engine.Api.Routes.{Server}
use payments_engine.Transfer.Request.{Config}

pub record ServerConfig : Type 0 where
  pub database_url : Text
  pub redis_addr : Text
  pub listen_addr : Text

pub record SeedConfig : Type 0 where
  pub database_url : Text

-- The process environment: os.Getenv, which gives the empty string for a variable that is not set.
abbrev pub Environment : Type 0
Environment = Text → Text

unfoldable pub required_env : Environment → Text → Result Text
required_env getenv key =
    let value = trim_space (getenv key) in
    if value == [] then err (message (key ++ text " is required")) else ok value

unfoldable pub optional_env : Environment → Text → Text
optional_env getenv key = trim_space (getenv key)

unfoldable pub optional_env_with_default : Environment → Text → Text → Text
unfolding optional_env
optional_env_with_default getenv key fallback =
    let value = optional_env getenv key in if value == [] then fallback else value

abbrev pub server_config : Environment → Result Text → Result ServerConfig
server_config getenv (err e) = err e
server_config getenv (ok database_url) = ok (record {
  database_url = database_url;
  redis_addr = optional_env getenv (text "REDIS_ADDR");
  listen_addr = optional_env_with_default getenv (text "LISTEN_ADDR") (text ":8080");
})

unfoldable pub load_server_config : Environment → Result ServerConfig
unfolding required_env optional_env optional_env_with_default
load_server_config getenv = server_config getenv (required_env getenv (text "DATABASE_URL"))

abbrev pub seed_config : Result Text → Result SeedConfig
seed_config (err e) = err e
seed_config (ok database_url) = ok (record { database_url = database_url })

unfoldable pub load_seed_config : Environment → Result SeedConfig
unfolding required_env
load_seed_config getenv = seed_config (required_env getenv (text "DATABASE_URL"))

-- What every event of the log says of the process.
pub record LogOrigin : Type 0 where
  pub service : Text
  pub env : Text

unfoldable pub new_logger : Environment → LogOrigin
new_logger getenv = record {
  service =
      if trim_space (getenv (text "SERVICE_NAME")) == []
      then text "payments-engine"
      else trim_space (getenv (text "SERVICE_NAME"));
  env =
      if trim_space (getenv (text "APP_ENV")) == []
      then text "development"
      else trim_space (getenv (text "APP_ENV"));
}

-- NewTransferService, with a store or without, and WithAuditLogger
unfoldable pub new_transfer_service : Bool → Config
new_transfer_service has_store = record {
  clearing_code = default_clearing_code;
  posted_by = text "transfer-service";
  has_store = has_store;
  has_ledger = true;
  has_audit = true;
}

-- The server that main builds: the transfer service has a store if an address is configured and the
-- ping of Redis succeeds; the handler of the health check reads its variable. `trace_id` and
-- `code_suffix` belong to a request.
unfoldable pub start_server : Environment → Bool → ServerConfig → Text → Text → Server
unfolding new_transfer_service
start_server getenv ping_ok cfg trace_id code_suffix = record {
  config = new_transfer_service (not (cfg.redis_addr == []) && ping_ok);
  clearing_code_var = getenv (text "CLEARING_ACCOUNT_CODE");
  trace_id = trace_id;
  code_suffix = code_suffix;
}
