-- ===== src/Startup/Laws.antt =====
-- What can be said of a server that was started.
use payments_engine.Base.{
  Bool, true, false, [], Text, text, ◌≡◌, ◌≢◌, refl, sym, ap, subst, ◌∙◌, ◌==◌, text_eq, ◌↔◌, ◌⊎◌,
  inl, inr, Bool-cases, ==→eq,
}
use payments_engine.Base.Strings.{trim_space, trim_left}
use payments_engine.Error.{Error, Result, ok, err}
use payments_engine.Api.Reports.{default_clearing_code, health_code}
use payments_engine.Startup.{
  Environment, ServerConfig, required_env, optional_env, optional_env_with_default, server_config,
  load_server_config, new_transfer_service, start_server,
}
use payments_engine.Startup.Trimmed.{trim_space-trim_space}

abbrev pub IsTrimmed : Text → Type 0
IsTrimmed s = trim_space s ≡ s

-- the settings without which the server cannot start are there, and nothing has spaces around it
pub record IsUsable (cfg : ServerConfig) : Type 0 where
  pub has_url : cfg.database_url ≢ []
  pub has_addr : cfg.listen_addr ≢ []
  pub url_trimmed : IsTrimmed cfg.database_url
  pub addr_trimmed : IsTrimmed cfg.listen_addr
  pub redis_trimmed : IsTrimmed cfg.redis_addr

down_and_up : true ≡ false → ⊥
down_and_up h = cc

not_blank : (s : Text) → (s == []) ≡ false → s ≢ []
not_blank s h e = down_and_up (sym (ap (λ (t : Text). t == []) e) ∙ h)

with_default-usable :
    (getenv : Environment) (key fallback : Text)
    → IsTrimmed fallback
    → fallback ≢ []
    → (optional_env_with_default getenv key fallback ≢ [])
      × IsTrimmed (optional_env_with_default getenv key fallback)
unfolding optional_env_with_default optional_env
with_default-usable getenv key fallback h k = elim (Bool-cases (trim_space (getenv key) == [])) [
  | inl blank ↦ rw blank (k, h)
  | inr given ↦
      rw given (not_blank (trim_space (getenv key)) given, trim_space-trim_space (getenv key))
]

port-IsTrimmed : IsTrimmed (text ":8080")
unfolding trim_space trim_left
port-IsTrimmed = refl

refused_or_ok : {e : Error} {c : ServerConfig} → err e ≡ ok c → ⊥
refused_or_ok h = cc

ok_same : {a b : ServerConfig} → ok a ≡ ok b → a ≡ b
ok_same h = cc

abbrev IsGiven : Result Text → Type 0
IsGiven (err e) = Unit
IsGiven (ok value) = (value ≢ []) × IsTrimmed value

required_env-IsGiven : (getenv : Environment) (key : Text) → IsGiven (required_env getenv key)
unfolding required_env
required_env-IsGiven getenv key = elim (Bool-cases (trim_space (getenv key) == [])) [
  | inl blank ↦ rw blank tt
  | inr given ↦
      rw given (not_blank (trim_space (getenv key)) given, trim_space-trim_space (getenv key))
]

server_config-IsUsable :
    (getenv : Environment) (r : Result Text) (cfg : ServerConfig)
    → IsGiven r
    → server_config getenv r ≡ ok cfg
    → IsUsable cfg
unfolding optional_env
server_config-IsUsable getenv (err e) cfg g h = absurd (refused_or_ok h)
server_config-IsUsable getenv (ok url) cfg g h =
    let addr =
      with_default-usable getenv (text "LISTEN_ADDR") (text ":8080") port-IsTrimmed (λ e. cc e) in
    subst IsUsable (ok_same h) (record {
      has_url = g.0;
      has_addr = addr.0;
      url_trimmed = g.1;
      addr_trimmed = addr.1;
      redis_trimmed = trim_space-trim_space (getenv (text "REDIS_ADDR"));
    })

-- A configuration that LoadServerConfig returns has a database address and a listening address, and
-- none of its values has a space at its beginning or end.
load_server_config-IsUsable :
    (getenv : Environment) (cfg : ServerConfig) → load_server_config getenv ≡ ok cfg → IsUsable cfg
unfolding load_server_config
load_server_config-IsUsable getenv cfg h =
    server_config-IsUsable getenv _ cfg (required_env-IsGiven getenv (text "DATABASE_URL")) h

watches :
    (s : Text)
    → (health_code s ≡ default_clearing_code)
      ↔ ((trim_space s ≡ []) ⊎ (trim_space s ≡ default_clearing_code))
watches s = elim (Bool-cases (trim_space s == [])) [
  | inl blank ↦ rw blank (λ _. inl (==→eq (trim_space s) [] blank), λ _. refl)
  | inr given ↦
      rw given
        (λ e. inr e, λ p. elim p [ inl e ↦ absurd (not_blank (trim_space s) given e) | inr e ↦ e ])
]

-- The health check watches the account that the transfers pass through exactly when the variable
-- CLEARING_ACCOUNT_CODE is blank or holds the default code between spaces: the transfer service of the
-- server does not read it.
start_server_watches :
    (getenv : Environment) (ping_ok : Bool) (cfg : ServerConfig) (trace suffix : Text)
    → (health_code (start_server getenv ping_ok cfg trace suffix).clearing_code_var
        ≡ (start_server getenv ping_ok cfg trace suffix).config.clearing_code)
      ↔ ((trim_space (getenv (text "CLEARING_ACCOUNT_CODE")) ≡ [])
          ⊎ (trim_space (getenv (text "CLEARING_ACCOUNT_CODE")) ≡ default_clearing_code))
unfolding start_server new_transfer_service
start_server_watches getenv ping_ok cfg trace suffix =
    watches (getenv (text "CLEARING_ACCOUNT_CODE"))
