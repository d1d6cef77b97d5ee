-- ===== src/Lsm/Store/Overwritten.antt =====
-- What afterWrite of lsm/lsm.go does to a newer item under the key.
use elinproxy.Kvsm.Store
use elinproxy.Kvsm.Store.{Kvsm}
use elinproxy.Lsm.Store.{Lsm}
