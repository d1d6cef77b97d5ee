-- ===== src/Handler/Cached.antt =====
-- `respondFromCache` of httpsrv/handler/handler.go: the answer out of the cache, on the store of
-- Lsm/Store and the items of Lsm/Item. closeNotify, which drains the body of the request, and the
-- faults of the client's connection are left out. Each header is written once, so `fmt`'s verbs are
-- concatenations here.
pub mod Answers
use elinproxy.Prelude.{
  ℕ, ◌*◌, Bool, true, false, Option, none, some, List, [], ◌∷◌, ◌++◌, if◌then◌else◌, ◌==◌, ◌>>=◌,
  map,
}
use elinproxy.Prelude.Int.{ℤ, pos, ◌-ℤ◌, pos_part}
use elinproxy.Kvsm.Entry.{Ptr}
use elinproxy.Text.{Bytes, codes}
use elinproxy.Text.Decimal.{format, itoa}
use elinproxy.Lsm.Mem.{Header}
use elinproxy.Lsm.Range.{Span, ok, err}
use elinproxy.Lsm.Item.{Item}
use elinproxy.Lsm.Store
use elinproxy.Lsm.Store.{Lsm, Object}
use elinproxy.Handler.Headers.{set, copy_joined, get, del_all}
use elinproxy.Handler.Range.{
  HttpRange, Parsed, not_present, invalid_range, no_range, ranges, parse_range,
}

abbrev pub limit_range : ℕ
limit_range = 1024 * 1024

-- What the client is sent: the status, the headers and the body.
pub record Reply : Type 0 where
  pub status : ℕ
  pub headers : Header
  pub body : Bytes

abbrev pub status_ok : ℕ
status_ok = 200

abbrev pub status_partial_content : ℕ
status_partial_content = 206

abbrev pub status_range_not_satisfiable : ℕ
status_range_not_satisfiable = 416

abbrev pub content_length : Bytes
content_length = codes "Content-Length"

abbrev pub content_range : Bytes
content_range = codes "Content-Range"

abbrev pub accept_ranges : Bytes
accept_ranges = codes "Accept-Ranges"

-- The headers of the item and of the cache; Get's second result tells that the item is expired.
unfoldable pub cache_headers : Object → Bool → Header → Header
cache_headers o expired kept =
    let first = if expired then [] else set (codes "X-Expired") (codes "false") [] in
    let copied = copy_joined kept first in
    set (codes "Age") (format o.hit)
      (set (codes "Server") (codes "elinproxy") (set accept_ranges (codes "none") copied))

unfoldable pub refuse : Header → Bytes → Reply
refuse headers message = record {
  status = status_range_not_satisfiable;
  headers = headers;
  body = codes "ERROR 416 // RFC 7233, 4.4" ++ 10 ∷ message;
}

-- The item whole; `none` where WriteTo does not return.
unfoldable pub send_whole : Item → Object → Header → Option Reply
send_whole itm o headers = do
  b ← itm.write_to
  some (record {
    status = o.status_code;
    headers = set content_length (itoa (pos itm.len)) headers;
    body = b;
  })

unfoldable pub range_text : Span → ℕ → Bytes
range_text span len =
    codes "bytes " ++ (itoa span.from ++ b'-' ∷ (itoa (span.to -ℤ pos 1) ++ b'/' ∷ itoa (pos len)))

-- The part of the item. The ends are not negative, since what parseRange reads between dashes is not.
unfoldable pub send_part : Item → Header → Span → Option Reply
unfolding range_text
send_part itm headers span = do
  b ← itm.write_to_range (pos_part span.from) (pos_part span.to)
  some (record {
    status = status_partial_content;
    headers =
        set content_length (itoa span.length)
          (set content_range (range_text span itm.len) (set accept_ranges (codes "bytes") headers));
    body = b;
  })

-- ErrWrongRange, the only error of ValidRange
abbrev wrong_range_text : Bytes
wrong_range_text = codes "Data is smaller that the range requested"

-- The first range is served and the others are ignored.
unfoldable pub send_range : Item → Header → HttpRange → Option Reply
unfolding send_part refuse
send_range itm headers r = elim (itm.valid_range r.start r.length) [
  | err e ↦ some (refuse headers wrong_range_text)
  | ok span ↦ send_part itm headers span
]

unfoldable pub send_parsed : Item → Object → Header → Parsed → Option Reply
unfolding send_whole send_range refuse
send_parsed itm o headers not_present = send_whole itm o headers
send_parsed itm o headers invalid_range = some (refuse headers (codes "invalid range"))
send_parsed itm o headers no_range = some (refuse headers (codes "no range"))
send_parsed itm o headers (ranges []) = send_whole itm o headers
send_parsed itm o headers (ranges (r ∷ rs)) =
    if o.status_code == status_ok then send_range itm headers r else send_whole itm o headers

-- WriteHeader of the log calls customTags, which deletes headers, before it hands the status on.
unfoldable pub hide : List Bytes → Reply → Reply
hide names r = record r { headers = del_all names r.headers }

-- customTags: the values of the configured headers
unfoldable pub custom_tags : List Bytes → Header → List Bytes
custom_tags names h = map (λ k. get k h) names

-- The answer with an item. The inner `none` is a header that cannot be had; an absent header Range is
-- the empty text, which parseRange reads as no range.
unfoldable pub respond : Item → Object → Bool → Bytes → Option (Option Reply)
unfolding cache_headers send_parsed
respond itm o expired range = elim itm.get_header [
  | none ↦ some none
  | some kept ↦ (do
    r ←
        send_parsed itm o (cache_headers o expired kept)
          (parse_range range (pos limit_range) itm.len)
    some (some r))
]

-- respondFromCache; the outer `none` is a panic or an endless loop, and the inner one `false`.
unfoldable pub respond_from_cache : (Ptr → Item) → ℕ → ℕ → Bytes → Lsm → Option (Lsm × Option Reply)
unfolding respond
respond_from_cache items now key range c = do
  (c', found) ← Store.get now key c
  elim found [
    | none ↦ some (c', none)
    | some (p, expired) ↦ (do
      answer ← respond (items p) (c'.objects p) expired range
      some (Store.done p c', answer))
  ]
