-- ===== src/Api/AuditQuery.antt =====
-- api/handler/audit_query.go: the optional bounds of an audit query.
use payments_engine.Base.{ℕ, Option, none, some, [], Text, text, ◌==◌, text_eq, if◌then◌else◌}
use payments_engine.Base.Strings.{trim_space}
use payments_engine.Error.{Error, message, Result, ok, err}
use payments_engine.Api.Answer.{Formats}

abbrev pub or_else {ℓ} : {A : Type ℓ} → Option A → Option A → Option A
or_else none other = other
or_else (some a) other = some a

abbrev pub parse_rfc3339_flexible : Formats → Text → Option ℕ
parse_rfc3339_flexible form s = or_else (form.parse_rfc3339 s) (form.parse_rfc3339_nano s)

abbrev pub given_time : Error → Option ℕ → Result (Option ℕ)
given_time e none = err e
given_time e (some t) = ok (some t)

-- one of the two parameters
abbrev pub parse_bound : Formats → Error → Text → Result (Option ℕ)
parse_bound form e param =
    let s = trim_space param in
    if s == [] then ok none else given_time e (parse_rfc3339_flexible form s)

abbrev pub both_bounds {ℓ} : {A : Type ℓ} → Result A → Result A → Result (A × A)
both_bounds (err e) to = err e
both_bounds (ok from) (err e) = err e
both_bounds (ok from) (ok to) = ok (from, to)

unfoldable pub parse_audit_time_query : Formats → Text → Text → Result (Option ℕ × Option ℕ)
parse_audit_time_query form from to =
    both_bounds (parse_bound form (message (text "invalid from: expected RFC3339 timestamp")) from)
      (parse_bound form (message (text "invalid to: expected RFC3339 timestamp")) to)
