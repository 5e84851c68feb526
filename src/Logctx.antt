-- ===== src/Logctx.antt =====
-- pkg/logctx/context.go: what a request's context carries to the request log. The context holds a
-- pointer to one record, or none.
use payments_engine.Base.{Option, none, some, [], Text, ◌==◌, text_eq, if◌then◌else◌}
use payments_engine.Api.Answer.{Message, said}

pub record RequestLogFields : Type 0 where
  pub trace_id : Text
  pub error_code : Text
  pub error_detail : Message

-- the zero value of the record
abbrev no_fields : RequestLogFields
no_fields = record { trace_id = []; error_code = []; error_detail = said [] }

abbrev pub Context : Type 0
Context = Option RequestLogFields

unfoldable pub with_request_log_fields : Context → Context
with_request_log_fields none = some no_fields
with_request_log_fields (some fields) = some fields

unfoldable pub set_trace_id : Text → Context → Context
set_trace_id trace_id none = none
set_trace_id trace_id (some fields) = some (record fields { trace_id = trace_id })

unfoldable pub trace_id : Context → Text
trace_id none = []
trace_id (some fields) = fields.trace_id

unfoldable pub set_error : Text → Message → Context → Context
set_error code detail none = none
set_error code detail (some fields) =
    some (record fields { error_code = code; error_detail = detail })

unfoldable pub error : Context → Option (Text × Message)
error none = none
error (some fields) =
    if fields.error_code == [] then none else some (fields.error_code, fields.error_detail)
