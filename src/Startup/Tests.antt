-- ===== src/Startup/Tests.antt =====
-- A server that is started with an address of the database and a clearing code of its own.
use payments_engine.Base.{[], text, ◌≡◌, refl, ◌==◌, text_eq, if◌then◌else◌}
use payments_engine.Base.Strings.{trim_space, trim_left}
use payments_engine.Error.{ok}
use payments_engine.Startup.{
  Environment, ServerConfig, load_server_config, required_env, optional_env,
  optional_env_with_default,
}

abbrev variables : Environment
variables key =
    if key == text "DATABASE_URL"
    then text " postgres://db "
    else if key == text "CLEARING_ACCOUNT_CODE"
    then text "GL_OTHER"
    else []

abbrev loaded : ServerConfig
loaded = record { database_url = text "postgres://db"; redis_addr = []; listen_addr = text ":8080" }

variables_load : load_server_config variables ≡ ok loaded
unfolding load_server_config required_env optional_env optional_env_with_default trim_space
    trim_left
variables_load = refl
