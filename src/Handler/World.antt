-- ===== src/Handler/World.antt =====
-- What the handler of httpsrv/handler/handler.go works on: its configuration, the requests to the
-- backend and their answers, the items, and what the code is given by other packages and the system.
use elinproxy.Prelude.{ℕ, Bool, Option, List}
use elinproxy.Prelude.Int.{ℤ}
use elinproxy.Kvsm.Entry.{Ptr}
use elinproxy.Text.{Bytes}
use elinproxy.HttpLog.{Lines}
use elinproxy.CacheRules.{Rules}
use elinproxy.Lsm.File.{Os}
use elinproxy.Lsm.Mem.{ItemMem, Header}
use elinproxy.Lsm.Disk.{ItemDisk}
use elinproxy.Lsm.Item.{Item, item_mem, item_disk}
use elinproxy.Lsm.Store.{Lsm}

pub record Config : Type 0 where
  pub backend_host : Bytes
  pub backend_port : Bytes
  pub backend_tls_host : Bytes
  pub backend_tls_port : Bytes
  pub backend_once : Bool
  pub domain_suffix : Bytes
  pub req_remove_headers : List Bytes
  pub resp_remove_headers : List Bytes
  pub custom_tags : List Bytes
  pub has_cache : Bool

-- The request to the backend. `uri` is the text that ParseRequestURI is given.
pub record OutRequest : Type 0 where
  pub method : Bytes
  pub uri : Bytes
  pub host : Bytes
  pub headers : Header

-- `body` is what can be read of the body, and `breaks` tells that reading it ends with an error. To
-- close a body that was read to its end is no error.
pub record BackendResponse : Type 0 where
  pub status_code : ℕ
  pub header : Header
  pub body : Bytes
  pub breaks : Bool
  pub content_length : ℤ
  pub close : Bool

-- An item in memory, or one on disk with what its file holds.
pub data AnyItem : Type 0 where
  in_memory : ItemMem → AnyItem
  on_disk : Bytes → ItemDisk → AnyItem

-- The store, its items and the log.
pub record World : Type 0 where
  pub lsm : Lsm
  pub items : Ptr → AnyItem
  pub lines : Lines

-- What the code is given: its configuration, the other packages and the system, the clock and the
-- date that goes with it. `limited` is the limiter's refusal of this request.
pub record Env : Type 0 where
  pub cfg : Config
  pub rules : Rules
  pub os : Os
  pub fuel : ℕ
  pub parse : Bytes → Option Header
  pub split_host_port : Bytes → Option Bytes
  pub device_of : Bytes → ℕ
  pub hash : Bytes → ℕ
  pub round_trip : OutRequest → Option BackendResponse
  pub limited : Option (ℕ × Bytes)
  pub now : ℕ
  pub date : Bytes

-- What the pools hand out: an entry of the table and an item.
abbrev pub Fresh : Type 0
Fresh = Ptr × Ptr

unfoldable pub as_item : Env → AnyItem → Item
as_item env (in_memory itm) = item_mem env.fuel env.os itm
as_item env (on_disk file itd) = item_disk env.fuel env.os env.parse file itd
