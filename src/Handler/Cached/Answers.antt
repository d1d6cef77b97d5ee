-- ===== src/Handler/Cached/Answers.antt =====
-- The answers to requests for a range and for the whole of an item (respondFromCache of
-- httpsrv/handler/handler.go).
use elinproxy.Prelude.{
  ℕ, ◌+◌, ◌-◌, ◌≤◌, ◌<◌, ◌≡◌, refl, sym, ap, ◌∙◌, Bool, true, ◌==◌, some, List, [], ◌∷◌, ◌++◌,
  arith, length, take, drop, min, map, length-take, length-drop,
}
use elinproxy.Prelude.Int.{pos, negsuc, ◌-ℤ◌, int64_max}
use elinproxy.Text.{Bytes, codes}
use elinproxy.Text.Decimal.{format, itoa}
use elinproxy.Lsm.Mem.{Header}
use elinproxy.Lsm.Range.{valid_range, valid_range_sound, valid_range_inverted, ok, Span}
use elinproxy.Lsm.Item.{Item, Holds}
use elinproxy.Lsm.Store.{Object}
use elinproxy.Handler.Headers.{get, set, get-set_self, get-set_other, canonical}
use elinproxy.Handler.Range.{HttpRange, range_prefix, parse_range, ranges}
use elinproxy.Handler.Range.Printed.{Ends, print_all, AllFit, as_range, parse_range-print_all}
use elinproxy.Handler.Cached.{
  Reply, respond, cache_headers, send_range, send_part, send_parsed, send_whole, status_ok,
  status_partial_content, content_length, content_range, accept_ranges, range_text, limit_range,
}

-- The answer is the bytes of `body` from `a` up to `to`, which is not included, as a part of it.
pub record IsPart (body : Bytes) (a to : ℕ) (r : Reply) : Type 0 where
  pub status : r.status ≡ status_partial_content
  pub bytes : r.body ≡ take (to - a) (drop a body)
  pub counted : get content_length r.headers ≡ itoa (pos (length r.body))
  pub named :
      get content_range r.headers
      ≡ codes "bytes " ++ (format a ++ b'-' ∷ (format (to - 1) ++ b'/' ∷ format (length body)))

span_from_to : ℕ → ℕ → Span
span_from_to a to = record { from = pos a; to = pos to; length = pos (to - a) }

last_byte : (to : ℕ) → 0 < to → (pos to -ℤ pos 1) ≡ pos (to - 1)
unfolding ◌-ℤ◌
last_byte to more = ground arith

-- What is sent for a span inside the body.
send_part_lem :
    (itm : Item) (header headers : Header) (body : Bytes)
    → Holds itm header body
    → (a to : ℕ) → a < to
    → to ≤ length body
    → (r : Reply) × (send_part itm headers (span_from_to a to) ≡ some r) × IsPart body a to r
unfolding send_part range_text span_from_to canonical itoa
send_part_lem itm header headers body h a to ordered inside =
    let shown = range_text (span_from_to a to) itm.len in
    let ranged = set content_range shown (set accept_ranges (codes "bytes") headers) in
    let r : Reply = record {
      status = status_partial_content;
      headers = set content_length (itoa (pos (to - a))) ranged;
      body = take (to - a) (drop a body);
    } in
    let len : length (take (to - a) (drop a body)) ≡ to - a =
      omega (arith, length-take (to - a) (drop a body), length-drop a body) in
    (
      r,
      rw (h.gives_part a to ordered inside, send_part) refl,
      record {
        status = refl;
        bytes = refl;
        counted =
            get-set_self content_length (itoa (pos (to - a))) ranged
            ∙ ap (λ n. itoa (pos n)) (sym len);
        named =
            get-set_other content_range content_length (itoa (pos (to - a))) ranged refl
            ∙ get-set_self content_range shown (set accept_ranges (codes "bytes") headers)
            ∙ (λ i.
                codes "bytes "
                ++ (format a
                    ++ b'-'
                      ∷ (itoa (last_byte to (omega arith) i) ++ b'/' ∷ format (h.len_body i))));
      },
    )

inverted_span :
    (len a b : ℕ)
    → len < int64_max
    → a < int64_max
    → (b + 1 < a) × (a < len)
    → valid_range len (pos a) (pos b)
      ≡ ok (record { from = pos a; to = pos (b + 1); length = negsuc (a - (b + 1) - 1) })
inverted_span len a b fits small (behind, inside) =
    let e : min (b + 1) len ≡ b + 1 = omega arith in
    valid_range_inverted len a b fits small (omega arith)
    ∙ ap (λ n. ok (record { from = pos a; to = pos n; length = negsuc (a - n - 1) })) e

-- The steps from the header Range to what is sent.
respond_range :
    (itm : Item) (header : Header) (o : Object) (expired : Bool) (range : Bytes) (x : HttpRange)
    (xs : List HttpRange) (span : Span) (r : Reply)
    → itm.get_header ≡ some header
    → parse_range range (pos limit_range) itm.len ≡ ranges (x ∷ xs)
    → (o.status_code == status_ok) ≡ true
    → itm.valid_range x.start x.length ≡ ok span
    → send_part itm (cache_headers o expired header) span ≡ some r
    → respond itm o expired range ≡ some (some r)
unfolding respond send_parsed send_range
respond_range itm header o expired range x xs span r kept parsed found valid sent =
    rw (kept, respond)
      (rw (parsed, respond)
        (rw (found, send_parsed) (rw (valid, send_range) (rw (sent, respond) refl))))

-- A request for a range that begins inside an item with status 200, and does not end before it begins,
-- is answered 206 with the bytes that it names, cut at the end of the item; Content-Length and
-- Content-Range say so. More ranges behind the first are ignored.
pub respond-IsPart :
    (itm : Item) (header : Header) (body : Bytes) (o : Object) (expired : Bool) (a b : ℕ)
    (rs : List Ends)
    → Holds itm header body
    → o.status_code ≡ status_ok
    → length body < int64_max
    → a < length body
    → a ≤ b
    → AllFit ((a, b) ∷ rs)
    → (r : Reply) × (respond itm o expired (range_prefix ++ print_all (a, b) rs) ≡ some (some r))
      × IsPart body a (min (b + 1) (length body)) r
unfolding span_from_to
respond-IsPart itm header body o expired a b rs h found small inside ordered fit =
    let headers = cache_headers o expired header in
    let to = min (b + 1) (length body) in
    let (r, sent, part) =
      send_part_lem itm header headers body h a to (omega arith) (omega arith) in
    let parsed =
      parse_range-print_all (a, b) rs (pos limit_range) itm.len fit (omega (arith, h.len_body)) in
    let valid =
      h.ranges (pos a) (pos b) ∙ valid_range_sound (length body) a b small inside ordered in
    (
      r,
      respond_range itm header o expired (range_prefix ++ print_all (a, b) rs) (as_range (a, b))
          (map as_range rs) (span_from_to a to) r h.header_kept parsed
          (ap (λ n. n == status_ok) found) valid sent,
      part,
    )

-- A request for an item with status 200, whose first range has its last byte two or more before its first
-- one, though that is inside the item, is answered 206 and not 416: with no body, and with a negative
-- Content-Length. The item keeps what the interface promises, its length is an int64, and the ranges are
-- printed with both ends, which are int64.
pub respond-inverted :
    (itm : Item) (header : Header) (body : Bytes) (o : Object) (expired : Bool) (a b : ℕ)
    (rs : List Ends)
    → Holds itm header body
    → o.status_code ≡ status_ok
    → length body < int64_max
    → a < length body
    → b + 1 < a
    → AllFit ((a, b) ∷ rs)
    → (r : Reply) × (respond itm o expired (range_prefix ++ print_all (a, b) rs) ≡ some (some r))
      × (r.status ≡ status_partial_content)
      × (r.body ≡ [])
      × (get content_length r.headers ≡ b'-' ∷ format (a - (b + 1)))
unfolding canonical send_part itoa
respond-inverted itm header body o expired a b rs h found small inside behind fit =
    let headers = cache_headers o expired header in
    let span : Span = record {
      from = pos a;
      to = pos (b + 1);
      length = negsuc (a - (b + 1) - 1);
    } in
    let ranged =
      set content_range (range_text span itm.len) (set accept_ranges (codes "bytes") headers) in
    let r : Reply = record {
      status = status_partial_content;
      headers = set content_length (itoa (negsuc (a - (b + 1) - 1))) ranged;
      body = [];
    } in
    let parsed =
      parse_range-print_all (a, b) rs (pos limit_range) itm.len fit (omega (arith, h.len_body)) in
    (
      r,
      respond_range itm header o expired (range_prefix ++ print_all (a, b) rs) (as_range (a, b))
          (map as_range rs) span r h.header_kept parsed (ap (λ n. n == status_ok) found)
          (h.ranges (pos a) (pos b)
            ∙ inverted_span (length body) a b small (omega arith) (behind, inside))
          (rw (h.gives_none a (b + 1) behind, send_part) refl),
      refl,
      refl,
      (get-set_self content_length (itoa (negsuc (a - (b + 1) - 1))) ranged
          ∙ ap (λ n. b'-' ∷ format n) {x = a - (b + 1) - 1 + 1} {y = a - (b + 1)} (omega arith)),
    )

-- The answer is the whole of `body`, and Age counts the hits.
pub record IsWhole (body : Bytes) (code hits : ℕ) (r : Reply) : Type 0 where
  pub status : r.status ≡ code
  pub bytes : r.body ≡ body
  pub counted : get content_length r.headers ≡ format (length body)
  pub aged : get (codes "Age") r.headers ≡ format hits

-- A request without a range is answered with the whole item, under its own status.
pub respond-IsWhole :
    (itm : Item) (header : Header) (body : Bytes) (o : Object) (expired : Bool)
    → Holds itm header body
    → (r : Reply) × (respond itm o expired [] ≡ some (some r)) × IsWhole body o.status_code o.hit r
unfolding respond send_parsed send_whole parse_range canonical itoa cache_headers
respond-IsWhole itm header body o expired h =
    let headers = cache_headers o expired header in
    (
      record {
        status = o.status_code;
        headers = set content_length (itoa (pos itm.len)) headers;
        body = body;
      },
      rw (h.header_kept, respond) (rw (h.gives_all, respond) refl),
      record {
        status = refl;
        bytes = refl;
        counted = get-set_self content_length (itoa (pos itm.len)) headers ∙ ap format h.len_body;
        aged =
            get-set_other (codes "Age") content_length (itoa (pos itm.len)) headers refl
            ∙ get-set_self (codes "Age") (format o.hit) _;
      },
    )
