-- ===== src/HttpLog.antt =====
-- httpsrv/httplog: the log line of a request, which also names the request in the cache.
-- net.SplitHostPort (the host, if there is a port) and uasurfer's device number are parameters.
-- Times are left out but for the clock of the first byte.
pub mod Key
pub mod Metrics
pub mod Printed
pub mod Published
pub mod UserAgent
mod Tests
use elinproxy.Prelude.{
  ℕ, ◌+◌, Bool, true, false, Option, none, some, List, [], ◌∷◌, ◌++◌, if◌then◌else◌, ◌==◌, ltb,
  length,
}
use elinproxy.Prelude.Int.{ℤ, pos}
use elinproxy.Text.{Bytes, codes}
use elinproxy.Lsm.Mem.{Header}
use elinproxy.Text.Decimal.{itoa}

-- What net/http has parsed of a request. `path` is the path of the URL with its escapes resolved,
-- and `scheme` is empty unless the request names a whole URL.
pub record Request : Type 0 where
  pub method : Bytes
  pub scheme : Bytes
  pub host : Bytes
  pub path : Bytes
  pub raw_query : Bytes
  pub tls : Bool
  pub user : Option Bytes
  pub user_agent : Bytes
  pub cookies : List Bytes
  pub headers : Header
  pub proto : Bytes
  pub proto_major : ℕ
  pub content_length : ℤ
  pub remote_addr : Bytes

-- HTTPLog. `first_byte` is the clock at the first write, for RespTTFMS.
pub record HttpLog : Type 0 where
  pub client_ip : Bytes
  pub proto : Bytes
  pub tls : Bool
  pub method : Bytes
  pub status_code : ℕ
  pub schema : Bytes
  pub host : Bytes
  pub user : Bytes
  pub url : Bytes
  pub user_agent : Bytes
  pub cookies : ℕ
  pub first_byte : ℕ
  pub req_bytes : ℤ
  pub resp_bytes : ℕ
  pub hit : Bool
  pub rate_limit : Bool
  pub device : ℕ
  pub custom_tags : List Bytes

or_empty : Option Bytes → Bytes
or_empty none = []
or_empty (some b) = b

-- `if localHost, _, err := SplitHostPort(r.Host)`, and the host of the request where that is empty
host_of : (Bytes → Option Bytes) → Bytes → Bytes
host_of split_host_port host = elim (split_host_port host) [
  | none ↦ host
  | some [] ↦ host
  | some (c ∷ name) ↦ c ∷ name
]

-- The schema is left empty where the request names a whole URL.
unfoldable pub schema_of : Request → Bytes
schema_of r = elim r.scheme [ [] ↦ if r.tls then codes "https" else codes "http" | c ∷ s ↦ [] ]

with_query : Bytes → Bytes → Bytes
with_query url [] = url
with_query url (c ∷ query) = url ++ codes "?" ++ (c ∷ query)

unfoldable pub url_of : Request → Bytes
unfolding schema_of with_query
url_of r = with_query (schema_of r ++ codes "://" ++ r.host ++ r.path) r.raw_query

unfoldable pub new : (Bytes → Option Bytes) → (Bytes → ℕ) → Request → HttpLog
unfolding or_empty host_of url_of
new split_host_port device_of r = record {
  client_ip = or_empty (split_host_port r.remote_addr);
  proto = r.proto;
  tls = r.tls;
  method = r.method;
  status_code = 0;
  schema = schema_of r;
  host = host_of split_host_port r.host;
  user = or_empty r.user;
  url = url_of r;
  user_agent = r.user_agent;
  cookies = length r.cookies;
  first_byte = 0;
  req_bytes = r.content_length;
  resp_bytes = 0;
  hit = false;
  rate_limit = false;
  device = device_of r.user_agent;
  custom_tags = [];
}

unfoldable pub get_key_str_device : HttpLog → ℕ → Bytes
get_key_str_device hl device = itoa (pos device) ++ hl.method ++ hl.url

unfoldable pub get_key_str : HttpLog → Bytes
unfolding get_key_str_device
get_key_str hl = get_key_str_device hl hl.device

-- Write, after the writer below took `n` bytes
unfoldable pub write : ℕ → ℕ → HttpLog → HttpLog
write now n hl = record hl {
  first_byte = if hl.resp_bytes == 0 then now else hl.first_byte;
  resp_bytes = hl.resp_bytes + n;
}

-- WriteHeader; `tags` is what the function for the headers gives
unfoldable pub write_header : ℕ → List Bytes → HttpLog → HttpLog
write_header status_code tags hl = record hl { status_code = status_code; custom_tags = tags }

-- The channel of log lines holds two; `saved` lists what the metrics have counted.
pub record Lines : Type 0 where
  pub msg_ch : List HttpLog
  pub saved : List HttpLog

-- Done never waits: a line that finds the channel full is dropped.
unfoldable pub done : HttpLog → Lines → Lines
done hl lines = record {
  msg_ch = if ltb (length lines.msg_ch) 2 then lines.msg_ch ++ hl ∷ [] else lines.msg_ch;
  saved = lines.saved ++ hl ∷ [];
}

-- The server takes the oldest line.
unfoldable pub take_line : Lines → Option (HttpLog × Lines)
take_line lines = elim lines.msg_ch [
  | [] ↦ none
  | hl ∷ rest ↦ some (hl, record lines { msg_ch = rest })
]
