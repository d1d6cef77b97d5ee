-- ===== src/Handler/Tests.antt =====
-- Answers out of the cache with a page of five bytes.
use elinproxy.Prelude.{◌≡◌, refl, false, none, some, [], ◌∷◌, ◌++◌, arith}
use elinproxy.Prelude.Int.{pos}
use elinproxy.Text.{codes}
use elinproxy.Text.Decimal.{format}
use elinproxy.Lsm.File.{sound_os}
use elinproxy.Lsm.Mem.{ItemMem}
use elinproxy.Lsm.Item.{item_mem, item_mem-Holds}
use elinproxy.Lsm.Log.RoundTrip.{sound_os-IsHealthy}
use elinproxy.Lsm.Store.{Object}
use elinproxy.Handler.Headers.{get}
use elinproxy.Handler.Range.{ranges, range_prefix, parse_range}
use elinproxy.Handler.Range.Printed.{print_all, as_range, parse_range-print_all}
use elinproxy.Handler.Cached.{Reply, respond, content_length, status_partial_content}
use elinproxy.Handler.Cached.Answers.{IsPart, respond-IsPart, respond-inverted}

parse_range-print_all_example :
    parse_range (range_prefix ++ print_all (2, 5) ((7, 9) ∷ [])) (pos 1024) 10
    ≡ ranges (as_range (2, 5) ∷ as_range (7, 9) ∷ [])
parse_range-print_all_example =
    parse_range-print_all (2, 5) ((7, 9) ∷ []) (pos 1024) 10 (omega arith) (omega arith)

abbrev page : ItemMem
page = record {
  key = 7;
  status_code = 200;
  header = [];
  body = codes "hello";
  hit = 0;
  in_use = 0;
  written = 0;
  w = none;
}

abbrev page_object : Object
page_object = record { key = 7; status_code = 200; hit = 1; in_use = 1; pooled = false }

respond-IsPart_example :
    (r : Reply) × (respond
        (item_mem 10 sound_os page)
        page_object
        false
        (range_prefix ++ print_all (1, 3) [])
      ≡ some (some r))
    × IsPart (codes "hello") 1 4 r
respond-IsPart_example =
    respond-IsPart (item_mem 10 sound_os page) [] (codes "hello") page_object false 1 3 []
      (item_mem-Holds sound_os sound_os-IsHealthy refl 10 page (omega arith)) refl (omega arith)
      (omega arith) (omega arith) (omega arith)

respond-inverted_example :
    (r : Reply) × (respond
        (item_mem 10 sound_os page)
        page_object
        false
        (range_prefix ++ print_all (4, 1) [])
      ≡ some (some r))
    × (r.status ≡ status_partial_content)
    × (r.body ≡ [])
    × (get content_length r.headers ≡ b'-' ∷ format 2)
respond-inverted_example =
    respond-inverted (item_mem 10 sound_os page) [] (codes "hello") page_object false 4 1 []
      (item_mem-Holds sound_os sound_os-IsHealthy refl 10 page (omega arith)) refl (omega arith)
      (omega arith) (omega arith) (omega arith)
