-- ===== src/Lib.antt =====
-- elinproxy: an HTTP proxy that keeps responses in memory and on disk.
--
-- The program (main.go) starts the servers (httpsrv/httpsrv.go), which hand each request to the
-- handler (httpsrv/handler). It names the request by its log line (httpsrv/httplog) and answers it
-- from the cache or by the backend. A request goes to the cache if the cache rules
-- (httpsrv/cacherules) admit it. The store (lsm) keeps each response as an item under a key: first
-- in memory (lsm/itemMem.go), where a large body moves to a temporary file, and later in a log
-- (lsm/vlog.go, lsm/vfile.go), after which the item is a place in a file (lsm/itemDisk.go). The
-- table of keys is lsm/kvsm: entries with an end, which a worker takes off the lists that hold the
-- entries of one TTL each. TLS connections are served certificates by host name (certs).
--
-- Files:
--   Prelude        numbers, lists, Go maps (Assoc), int64 (Int) and sync.Pool (Pool)
--   Text           Go's strings and strconv, as the program uses them: tests, Decimal and Split
--   Kvsm           lsm/kvsm
--     Entry          entry.go: Entry, and a heap of entries; Pooled: the pool of entries
--     LinkedList     list.go: add, remove, replace; Shape says what a list on the heap looks like,
--                    Queue, Unlink and Stale what add and remove do to it
--     Store          kvsm.go: the state Kvsm, and the calls Set, Get, Swap, RemoveByKey, Remove
--     Worker         kvsm.go, workerExpiration: receive and tick are the two cases of its select
--     Invariant      IsSound, and what each call and each step of the worker does to it
--     Reads          what Get finds after the other calls
--     Reachable      every schedule of calls and steps
--   Lsm            lsm
--     File           files of the operating system and vfile.go; Closing: how a file ends
--     Range          ValidRange of itemMem.go and itemDisk.go
--     Mem            itemMem.go: write, bytes, len, write_to, close; Body: what writes add up to;
--                    Ranges: write_to_range
--     Disk           itemDisk.go: write_all, write_to_range; Copying: what their loop copies;
--                    Pooled: the pool of items; Buffers: pool.go and get_header on its buffers, with
--                    Clean and Unread: what get_header reads on them
--     Log            vlog.go, transform; RoundTrip: an item logged and read again;
--                    Reader: the tries and the change of files;
--                    Channels: Set
--     Item           item.go: the interface of items, its promise, and the two types that keep it
--     Pools          item.go: the pools of items by size; Classes: which sizes they hand out
--     Store          lsm.go: set, get, delete, evictions; Use: Get after Set;
--                    Spared, Schedule: what the use count protects under every schedule;
--                    Overwritten: what afterWrite does to a newer item; Replaced: what Get finds
--                    behind it; Starts: new, reload and remove_contents
--   CacheRules     httpsrv/cacherules
--     Request        req.go, is_req_cachable; Admission: what it decides
--     Response       resp.go, is_resp_cachable; Loops and Lifetime: what it decides
--     Config         parse.go; Parsed: when it succeeds
--   Certs          certs/certs.go, certs/listcerts.go: the tables of certificates
--     Served         which certificate a host name is served
--     Issued         what GetCertificate serves
--     Settings       certs.go: new, reload, tls_config; cache.go: new_storage
--     Storage        certs/cache.go; Kept: what it keeps; Locks: the threads in Lock and Unlock, with
--                    Excluded and Entered: which of them go on
--   Handler        httpsrv/handler
--     Buffers        pool.go
--     Headers        http.Header: get, set, del
--     Range          utils.go, parse_range; Printed: what it reads of printed ranges
--     Cached         handler.go, respondFromCache: respond; Answers: to requests for a part and for all
--     World          the handler's configuration and data, and what it is given (Env)
--     Proxy          handler.go, reverseProxy, modifyResponse, buildBackendURL; utils.go, DumpResponse;
--                    Kept: what is kept of an answer
--     Serve          handler.go, ServeHTTP: serve_http; Uncached: requests that are kept from the cache;
--                    Steps, Stored, Replay: the backend's answer, and then the cache's; Once: many
--                    requests that wait for one; Logged: requests for items the log has written
--   HttpLog        httpsrv/httplog/httplog.go: the log line; Key: which requests have one key;
--                  Published: the server of the lines; Printed: marshal_string; UserAgent: useragent.go;
--                  Metrics: metrics.go, with Counted: what its counters come to
--   HttpSrv        httpsrv/httpsrv.go: new, reload, listen; Reloaded: what they come to
--   Program        main.go: start_or_reload; Starts: a start and a reload after it
--   Client         client/client.go: connect, reconnect, listen; Connects: when it connects;
--                  Watch: client/main.go, start_watcher
--
-- Conventions and bounds. A pointer is a number and 0 is nil; the heap is a total function. A
-- panic is `none`, `panic` in the worker, or `panics` in Lsm/Disk/Buffers. The panic
-- http.ErrAbortHandler, by which ReverseProxy ends where the body of an answer breaks off, is
-- `aborted` of Served: net/http cuts the connection, and nothing else ends. In the goroutine of
-- BackendOnce, which nothing recovers, it is `none`. The clock and durations are natural numbers
-- of nanoseconds, and are arguments; the int64 of UnixNano does not overflow before the year 2262.
-- The counters `n` and `in_use` are bit patterns modulo 2^64. A channel is its buffer with the
-- blocked senders behind it, first in first out. Each call and each case of the worker is one
-- atomic step, so a schedule is a sequence of steps; what happens when two goroutines are inside
-- calls at once is modelled for the locks of certs/cache.go only, whose steps are single accesses.
-- The seconds of a TTL are a float in the code, whose whole part is exact below 2^24 seconds. The
-- worker's loop over a list has fuel two more than the list's size, of which it needs two; the
-- loop of writeTo needs fuel above the size of the body on a file that is long enough, and that of
-- WriteToRange fuel above the length of the range. A request is served as one step of the world,
-- but where it waits for another one: the world that it finds afterwards is then an argument. The
-- client's loop takes fuel above the number of attempts.
--
-- The operating system is a parameter: the record Os says which calls fail. http.Header.Write
-- (`serialize`) and textproto's ReadMIMEHeader (`parse`) are parameters, with the hypothesis that
-- the second reads what the first wrote for the header at hand. So are strconv.Atoi and
-- time.ParseDuration (Config), what certmagic issues (Certs), and the client of etcd (Storage),
-- whose reads see the writes before them, the transport with what ReverseProxy does to the headers
-- of one connection, the rate limiter, xxhash, net.SplitHostPort and uasurfer's device numbers (Env
-- of Handler/World), and the decoder of TOML (Program). A Go map that is iterated over is the list
-- of its entries in the order of the iteration. The lifetimes of the cache rules are int64
-- durations, with their wrap-around.
--
-- Not modelled: the lists of TTLs below 0, which only negative durations in the rules give, and
-- whose entries are on the list of TTL 0 here; which of several reads of a temporary file fails in
-- WriteTo; the order in which the readers of the log run; requests that overlap but for those that
-- wait for another one with BackendOnce; faults of the client's connection and closeNotify, which
-- drains what it sends; TLS, the ports and the timeouts of net/http; the JSON of log lines; the
-- flags, the profiler and the metrics' port of main.go; and ACME. These are plumbing of libraries,
-- or would take their models.
pub mod Prelude
pub mod Text
pub mod Kvsm
pub mod Lsm
pub mod CacheRules
pub mod Certs
pub mod Handler
pub mod HttpLog
pub mod Program
pub mod HttpSrv
pub mod Client
