-- ===== src/HttpLog/Printed.antt =====
-- MarshalString of httpsrv/httplog/httplog.go. The texts of the time, in RFC 3339, and of the two
-- durations, with four decimals, are arguments.
use elinproxy.Prelude.{List, [], ◌∷◌, ◌++◌}
use elinproxy.Prelude.Int.{pos}
use elinproxy.Text.{Bytes}
use elinproxy.Text.Decimal.{itoa}
use elinproxy.HttpLog.{HttpLog}
use elinproxy.HttpLog.Metrics.{format_bool}

-- strings.Join with a space
unfoldable pub join_spaces : List Bytes → Bytes
join_spaces [] = []
join_spaces (x ∷ []) = x
join_spaces (x ∷ y ∷ l) = x ++ b' ' ∷ join_spaces (y ∷ l)

-- A text between quotation marks, as it is.
unfoldable pub quoted : Bytes → Bytes
quoted s = b'"' ∷ (s ++ b'"' ∷ [])

unfoldable pub marshal_string : Bytes → Bytes → Bytes → HttpLog → Bytes
unfolding join_spaces quoted
marshal_string time resp_time_ms resp_ttf_ms hl = join_spaces (
    time
    ∷ hl.client_ip
    ∷ hl.proto
    ∷ format_bool hl.tls
    ∷ format_bool hl.hit
    ∷ format_bool hl.rate_limit
    ∷ hl.method
    ∷ quoted hl.url
    ∷ itoa (pos hl.status_code)
    ∷ resp_time_ms
    ∷ resp_ttf_ms
    ∷ itoa hl.req_bytes
    ∷ itoa (pos hl.resp_bytes)
    ∷ quoted hl.user_agent
    ∷ join_spaces hl.custom_tags
    ∷ [])
