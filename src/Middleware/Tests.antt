-- ===== src/Middleware/Tests.antt =====
-- The log event of a transfer, and the trace id of the header that the trace context's specification
-- shows.
use payments_engine.Base.{ℕ, [], some, none, Text, text, ◌≡◌, refl}
use payments_engine.Base.Strings.{trim_space, trim_left}
use payments_engine.Base.Int.{ℤ}
use payments_engine.Decimal.Scaled.{scaled}
use payments_engine.Api.Answer.{Body}
use payments_engine.Api.Routes.{post_transfer}
use payments_engine.Api.Tests.{plain, server, five_body}
use payments_engine.Ledger.Tests.{calm}
use payments_engine.Middleware.{Request, trace_id_from_traceparent, request_trace_id, is_hex_string}
use payments_engine.Middleware.Laws.{IsLogged, logged_run, traced_serve, request_logger-IsLogged}
use payments_engine.Middleware.Trace.{
  is_hex_string-digits, IsTraceId, NoneOrTraceId, traceparent_of,
  trace_id_from_traceparent-traceparent_of, trace_id_from_traceparent-NoneOrTraceId,
}
use payments_engine.Transfer.Tests.{world}

abbrev an_id : Text
an_id = text "4bf92f3577b34da6a3ce929d0e0e4736"

abbrev header : Text
header = traceparent_of (text "00") an_id (text "00f067aa0ba902b7") (text "01")

an_id-IsTraceId : IsTraceId an_id
unfolding is_hex_string
an_id-IsTraceId = record {
  length_eq = refl;
  digits = is_hex_string-digits an_id refl;
  nonzero = refl;
}

header_trimmed : trim_space header ≡ header
unfolding trim_space trim_left
header_trimmed = refl

trace_id_from_traceparent-NoneOrTraceId_example : NoneOrTraceId (trace_id_from_traceparent header)
trace_id_from_traceparent-NoneOrTraceId_example = trace_id_from_traceparent-NoneOrTraceId header

trace_id_from_traceparent-traceparent_of_example : trace_id_from_traceparent header ≡ an_id
trace_id_from_traceparent-traceparent_of_example =
    trace_id_from_traceparent-traceparent_of (text "00") an_id (text "00f067aa0ba902b7") (text "01")
      an_id-IsTraceId refl refl refl header_trimmed

abbrev posting : Request
posting = record {
  request_id = text "host/1";
  traceparent = header;
  method = text "POST";
  route_pattern = text "/api/v1/transfers";
  path = text "/api/v1/transfers";
  remote_ip = text "127.0.0.1";
  user_agent = [];
}

abbrev body_size : Body ℤ → ℕ
body_size _ = 100

request_logger-IsLogged_example :
    IsLogged body_size
      (logged_run plain calm body_size posting 3 none server
        (post_transfer (text "k1") (some five_body))
        world).0.0
      (logged_run plain calm body_size posting 3 none server
        (post_transfer (text "k1") (some five_body))
        world).0.1
    × ((logged_run plain calm body_size posting 3 none server
          (post_transfer (text "k1") (some five_body))
          world).0.0
        ≡ (traced_serve plain calm server
            (post_transfer (text "k1") (some five_body))
            (request_trace_id posting)
            world).0)
    × ((logged_run plain calm body_size posting 3 none server
          (post_transfer (text "k1") (some five_body))
          world).1
        ≡ (traced_serve plain calm server
            (post_transfer (text "k1") (some five_body))
            (request_trace_id posting)
            world).1)
request_logger-IsLogged_example =
    request_logger-IsLogged plain calm body_size posting 3 none server
      (post_transfer (text "k1") (some five_body)) world
