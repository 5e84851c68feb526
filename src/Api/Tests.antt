-- ===== src/Api/Tests.antt =====
-- Requests to the server, on the chart of accounts of the ledger's tests.
pub mod Posts
use payments_engine.Base.{ℕ, [], ◌∷◌, Option, none, some, Text, text, refl}
use payments_engine.Base.Int.{ℤ}
use payments_engine.World.{World}
use payments_engine.Decimal.Scaled.{scaled}
use payments_engine.Api.Answer.{Formats}
use payments_engine.Api.Explained.{IsExplained}
use payments_engine.Api.Explained.Serve.{serve-IsExplained}
use payments_engine.Api.Routes.{Server, serve, get_account_entries, post_transfer}
use payments_engine.Api.Safe.{IsUnchanged}
use payments_engine.Api.Safe.Serve.{serve_get-IsUnchanged}
use payments_engine.Api.Transfers.{CreateTransferRequest}
use payments_engine.Ledger.Tests.{calm, after}
use payments_engine.Transfer.Tests.{settings, world}

-- ids and times as texts of one code point between two `#`
abbrev pub enclosed : ℕ → Text
enclosed n = 35 ∷ n ∷ 35 ∷ []

abbrev pub inner : Text → Option ℕ
inner (_ ∷ n ∷ _ ∷ []) = some n
inner _ = none

abbrev pub plain : Formats
plain = record {
  parse_uuid = inner;
  show_uuid = enclosed;
  parse_rfc3339 = inner;
  parse_rfc3339_nano = inner;
  show_time = enclosed;
  show_seconds = enclosed;
  parse_uuid-show = λ id. refl;
  parse_rfc3339_nano-show = λ t. refl;
}

abbrev pub server : Server
server = record {
  config = settings;
  clearing_code_var = [];
  trace_id = text "t";
  code_suffix = text "abcdefgh";
}

abbrev pub five_body : CreateTransferRequest
five_body = record {
  from_account_id = enclosed 11;
  to_account_id = enclosed 12;
  amount = 43 ∷ 500000 ∷ [];
  currency = text "ghs";
  rail = none;
  description = none;
}

serve-IsExplained_example :
    IsExplained (serve plain calm server (post_transfer (text "k1") (some five_body)) world).0
serve-IsExplained_example =
    serve-IsExplained plain calm server (post_transfer (text "k1") (some five_body)) world

serve_get-IsUnchanged_example :
    IsUnchanged world (serve plain calm server (get_account_entries (enclosed 65)) world).1
serve_get-IsUnchanged_example =
    serve_get-IsUnchanged plain calm server (get_account_entries (enclosed 65)) world refl

-- the journal of the ledger's tests
abbrev booked : World ℤ
booked = record world { db = after.db }
