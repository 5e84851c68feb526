-- ===== src/Middleware/Laws.antt =====
-- The request log tells what the server answered.
use payments_engine.Base.{
  ℕ, ◌≤◌, ◌<◌, true, false, [], Option, none, some, Text, text, ◌≡◌, ◌≢◌, refl, sym, ap, ◌∙◌, arith,
  ◌==◌, text_eq, nat_eq, leb, ◌↔◌, inl, inr, Bool-cases, if◌then◌else◌, ==→eq,
}
use payments_engine.Decimal.{Decimals}
use payments_engine.Api.Answer.{Formats, Message, Answer, Body, Handler}
use payments_engine.Api.Explained.{HasReason, IsExplained}
use payments_engine.Api.Explained.Serve.{serve-IsExplained}
use payments_engine.Api.Routes.{Route, Server, serve}
use payments_engine.Logctx.{
  Context, RequestLogFields, with_request_log_fields, set_trace_id, trace_id, set_error, error,
}
use payments_engine.Middleware.{
  Request, LogEvent, error_level, warn, info, success, server_error, client_error, text_or,
  request_trace_id, trace_id_from_traceparent, log_event_of, answered, request_logger,
  set_given_error, status_outcome, level_of, write_bytes, write_header,
}
use payments_engine.Store.{Env}
use payments_engine.World.{World}

down_and_up : true ≡ false → ⊥
down_and_up h = cc

kept : (status : ℕ) → 200 ≤ status → (if status == 0 then 200 else status) ≡ status
kept status h = ground arith

text_or_full : (s t : Text) → t ≢ [] → text_or s t ≢ []
text_or_full s t h = elim (Bool-cases (s == [])) [
  | inl blank ↦ rw blank h
  | inr given ↦ rw given (λ e. down_and_up (sym (ap (λ (t : Text). t == []) e) ∙ given))
]

module _ {D : Type 0} where
  -- The event of an answer: its status and size, its error code if there is one, a trace id, and the
  -- level and the outcome that its status calls for.
  pub record IsLogged (size : Body D → ℕ) (a : Answer D) (e : LogEvent) : Type 0 where
    pub status_eq : e.status ≡ a.status
    pub bytes_eq : e.bytes ≡ size a.body
    pub error_eq : e.error ≡ a.logged
    pub traced : e.trace_id ≢ []
    pub at_error : (e.level ≡ error_level) ↔ (500 ≤ a.status)
    pub at_warn : (e.level ≡ warn) ↔ ((400 ≤ a.status) × (a.status < 500))
    pub at_info : (e.level ≡ info) ↔ (a.status < 400)
    pub failed : (e.outcome ≡ server_error) ↔ (500 ≤ a.status)
    pub refused : (e.outcome ≡ client_error) ↔ ((400 ≤ a.status) × (a.status < 500))
    pub served : (e.outcome ≡ success) ↔ (a.status < 400)

error_by :
    (status : ℕ) (logged : Option (Text × Message)) (fields : RequestLogFields)
    → HasReason status logged
    → (if leb 400 status then error (set_given_error logged (some fields)) else none) ≡ logged
unfolding error set_error
error_by status none fields h = ground arith
error_by status (some (code, detail)) fields h = elim (Bool-cases (code == [])) [
  | inl blank ↦ absurd (h.1 (==→eq code [] blank))
  | inr given ↦ rw given (ground arith)
]

at_error_lem : (n : ℕ) → (level_of n ≡ error_level) ↔ (500 ≤ n)
at_error_lem n = (λ e. ground arith, λ h. ground arith)

at_warn_lem : (n : ℕ) → (level_of n ≡ warn) ↔ ((400 ≤ n) × (n < 500))
at_warn_lem n = (λ e. (ground arith, ground arith), λ h. ground arith)

at_info_lem : (n : ℕ) → (level_of n ≡ info) ↔ (n < 400)
at_info_lem n = (λ e. ground arith, λ h. ground arith)

served_lem : (n : ℕ) → (status_outcome n ≡ success) ↔ (n < 400)
unfolding status_outcome
served_lem n = (λ e. ground arith, λ h. ground arith)

failed_lem : (n : ℕ) → (status_outcome n ≡ server_error) ↔ (500 ≤ n)
unfolding status_outcome
failed_lem n = (λ e. ground arith, λ h. ground arith)

refused_lem : (n : ℕ) → (status_outcome n ≡ client_error) ↔ ((400 ≤ n) × (n < 500))
unfolding status_outcome
refused_lem n = (λ e. (ground arith, ground arith), λ h. ground arith)

module _ {D : Type 0} where
  IsExplained-IsLogged :
      (a : Answer D) (fields : RequestLogFields) (size : Body D → ℕ) (r : Request) (ms : ℕ)
      → IsExplained a
      → IsLogged size a
          (log_event_of r ms (answered size a (some fields, record { status = 0; bytes = 0 })))
  unfolding write_bytes write_header status_outcome
  IsExplained-IsLogged a fields size r ms h = record {
    status_eq = rw (kept a.status h.least, kept a.status h.least) refl;
    bytes_eq = omega arith;
    error_eq =
        rw (kept a.status h.least, kept a.status h.least)
          (error_by a.status a.logged fields h.reason);
    traced =
        text_or_full
          (text_or (trace_id_from_traceparent r.traceparent) (text_or r.request_id (text "-")))
          (text "-") (λ e. cc e);
    at_error = rw (kept a.status h.least, kept a.status h.least) (at_error_lem a.status);
    at_warn = rw (kept a.status h.least, kept a.status h.least) (at_warn_lem a.status);
    at_info = rw (kept a.status h.least, kept a.status h.least) (at_info_lem a.status);
    failed = rw (kept a.status h.least, kept a.status h.least) (failed_lem a.status);
    refused = rw (kept a.status h.least, kept a.status h.least) (refused_lem a.status);
    served = rw (kept a.status h.least, kept a.status h.least) (served_lem a.status);
  }

module _ {D : Type 0} ⦃o : Decimals D⦄ (form : Formats) (env : Env) where
  -- the server behind the logger, whose context gives it the trace id
  abbrev pub traced_serve : Server → Route → Text → Handler D
  traced_serve srv route id = serve form env (record srv { trace_id = id }) route

  abbrev pub logged_run :
      (Body D → ℕ)
      → Request
      → ℕ
      → Context
      → Server
      → Route
      → World D
      → (Answer D × LogEvent) × World D
  logged_run size r ms incoming srv route w =
      request_logger size r ms incoming (traced_serve srv route) w

  -- Whatever the request's context holds already, the request logger passes on the answer and the state
  -- of the server, which runs under the trace id of the request, and logs one event for it: with the
  -- status, the size and the error code of the answer, a trace id that is not empty, and, of level and
  -- outcome, error and server error exactly from status 500 on, warning and client error exactly from
  -- 400 to 499, information and success exactly below 400.
  pub request_logger-IsLogged :
      (size : Body D → ℕ) (r : Request) (ms : ℕ) (incoming : Context) (srv : Server) (route : Route)
      (w : World D)
      → IsLogged size
          (logged_run size r ms incoming srv route w).0.0
          (logged_run size r ms incoming srv route w).0.1
        × ((logged_run size r ms incoming srv route w).0.0
            ≡ (traced_serve srv route (request_trace_id r) w).0)
        × ((logged_run size r ms incoming srv route w).1
            ≡ (traced_serve srv route (request_trace_id r) w).1)
  unfolding request_logger with_request_log_fields set_trace_id trace_id set_error error write_bytes
      write_header status_outcome
  request_logger-IsLogged size r ms none srv route w =
      (IsExplained-IsLogged _ _ size r ms (serve-IsExplained form env _ route w), refl, refl)
  request_logger-IsLogged size r ms (some fields) srv route w =
      (IsExplained-IsLogged _ _ size r ms (serve-IsExplained form env _ route w), refl, refl)
