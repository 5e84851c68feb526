-- ===== src/Middleware.antt =====
-- api/middleware/logging.go: the one log event of each request.
pub mod Trace
pub mod Laws
pub mod Tests
use payments_engine.Base.{
  ℕ, ◌+◌, Bool, true, false, not, ◌&&◌, ◌||◌, List, [], ◌∷◌, Option, none, some, Text, text, ◌==◌,
  nat_eq, text_eq, length, leb, if◌then◌else◌,
}
use payments_engine.Base.Strings.{trim_space, to_lower, trim_char, split}
use payments_engine.Api.Answer.{Message, Answer, Body, Handler}
use payments_engine.Logctx.{
  Context, with_request_log_fields, set_trace_id, trace_id, set_error, error,
}
use payments_engine.World.{World}

-- statusRecorder: what has been written of the answer
pub record StatusRecorder : Type 0 where
  pub status : ℕ
  pub bytes : ℕ

unfoldable pub write_header : ℕ → StatusRecorder → StatusRecorder
write_header code rec = record rec { status = code }

-- net/http writes all `n` bytes
unfoldable pub write_bytes : ℕ → StatusRecorder → StatusRecorder
write_bytes n rec = record {
  status = if rec.status == 0 then 200 else rec.status;
  bytes = rec.bytes + n;
}

unfoldable pub is_hex_string : Text → Bool
is_hex_string [] = true
is_hex_string (ch ∷ rest) =
    if leb 48 ch && leb ch 57
    then is_hex_string rest
    else if leb 97 ch && leb ch 102
    then is_hex_string rest
    else false

abbrev pub checked_trace_id : Text → Text
checked_trace_id id =
    if not (length id == 32) || (not (is_hex_string id) || (trim_char 48 id == [])) then [] else id

abbrev pub trace_id_of_parts : List Text → Text
trace_id_of_parts (version ∷ id ∷ parent ∷ flags ∷ []) = checked_trace_id (to_lower id)
trace_id_of_parts _ = []

unfoldable pub trace_id_from_traceparent : Text → Text
trace_id_from_traceparent header =
    let traceparent = trim_space header in
    if traceparent == [] then [] else trace_id_of_parts (split 45 traceparent)

pub data Outcome : Type 0 where
  success client_error server_error : Outcome

unfoldable pub status_outcome : ℕ → Outcome
status_outcome code =
    if leb 500 code then server_error else if leb 400 code then client_error else success

pub data Level : Type 0 where
  info warn error_level : Level

abbrev pub level_of : ℕ → Level
level_of status = if leb 500 status then error_level else if leb 400 status then warn else info

-- What the logger reads of a request.
pub record Request : Type 0 where
  pub request_id : Text
  pub traceparent : Text
  pub method : Text
  pub route_pattern : Text
  pub path : Text
  pub remote_ip : Text
  pub user_agent : Text

pub record LogEvent : Type 0 where
  pub level : Level
  pub trace_id : Text
  pub method : Text
  pub route : Text
  pub path : Text
  pub status : ℕ
  pub bytes : ℕ
  pub duration_ms : ℕ
  pub remote_ip : Text
  pub user_agent : Text
  pub outcome : Outcome
  pub error : Option (Text × Message)

-- the first of two texts that is not empty
abbrev pub text_or : Text → Text → Text
text_or s fallback = if s == [] then fallback else s

abbrev pub request_trace_id : Request → Text
request_trace_id r =
    let request_id = text_or r.request_id (text "-") in
    text_or (text_or (trace_id_from_traceparent r.traceparent) request_id) (text "-")

abbrev pub set_given_error : Option (Text × Message) → Context → Context
set_given_error none ctx = ctx
set_given_error (some (code, detail)) ctx = set_error code detail ctx

-- the event that is logged after the handler
abbrev pub log_event_of : Request → ℕ → Context × StatusRecorder → LogEvent
log_event_of r duration_ms (ctx, rec) =
    let status = if rec.status == 0 then 200 else rec.status in
    record {
      level = level_of status;
      trace_id = request_trace_id r;
      method = r.method;
      route = text_or r.route_pattern r.path;
      path = r.path;
      status = status;
      bytes = rec.bytes;
      duration_ms = duration_ms;
      remote_ip = r.remote_ip;
      user_agent = r.user_agent;
      outcome = status_outcome status;
      error = if leb 400 status then error ctx else none;
    }

module _ {D : Type 0} where
  -- What a handler of the server does to the recorder and to the context: setRequestError if it
  -- refuses, then writeJSON, whose body has `size` bytes.
  abbrev pub answered :
      (Body D → ℕ) → Answer D → Context × StatusRecorder → Context × StatusRecorder
  answered size a (ctx, rec) =
      (set_given_error a.logged ctx, write_bytes (size a.body) (write_header a.status rec))

  -- RequestLogger around the handler `next`, which reads the trace id of its context: the answer that
  -- the client gets, the event, and the state after the request.
  unfoldable pub request_logger :
      (Body D → ℕ)
      → Request
      → ℕ
      → Context
      → (Text → Handler D)
      → World D
      → (Answer D × LogEvent) × World D
  unfolding with_request_log_fields set_trace_id trace_id set_error error write_bytes write_header
      status_outcome
  request_logger size r duration_ms incoming next w =
      let ctx = set_trace_id (request_trace_id r) (with_request_log_fields incoming) in
      let (a, w') = next (trace_id ctx) w in
      (
        (a, log_event_of r duration_ms (answered size a (ctx, record { status = 0; bytes = 0 }))),
        w',
      )
