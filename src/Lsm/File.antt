-- ===== src/Lsm/File.antt =====
-- The operating system's files as lsm uses them: a writer that appends and a reader at an offset.
-- Which calls fail is a parameter. The package's VFile (lsm/vfile.go) stands on them.
pub mod Closing
use elinproxy.Prelude.{
  ℕ, ◌+◌, Bool, true, false, Option, none, some, List, [], ◌∷◌, ◌++◌, if◌then◌else◌, length, take,
  drop, ltb,
}
pub use elinproxy.Text.{Bytes}

-- `write_fault content b` is `none` where a write of `b` behind `content` succeeds, and else the
-- number of bytes that were written before it failed. `read_fault off` is
-- `none` where a read at `off` succeeds or meets the end of the file, and else the count of bytes that
-- comes with the error. `temp_created`, `reopens` and `stats` tell whether ioutil.TempFile, os.Open
-- and Stat succeed, and `chunks` how io.Copy cuts what it copies into writes.
pub record Os : Type 0 where
  pub write_fault : Bytes → Bytes → Option ℕ
  pub read_fault : ℕ → Option ℕ
  pub temp_created : Bool
  pub reopens : Bool
  pub stats : Bool
  pub chunks : Bytes → List Bytes

abbrev pub sound_os : Os
sound_os = record {
  write_fault = λ c b. none;
  read_fault = λ off. none;
  temp_created = true;
  reopens = true;
  stats = true;
  chunks = λ b. b ∷ [];
}

-- What a write returns: the count, and whether it failed.
pub record Written : Type 0 where
  pub count : ℕ
  pub failed : Bool
  pub content : Bytes

-- os.File.Write on a file that is only appended to
unfoldable pub append_file : Os → Bytes → Bytes → Written
append_file os content b = elim (os.write_fault content b) [
  | none ↦ record { count = length b; failed = false; content = content ++ b }
  | some n ↦ record { count = n; failed = true; content = content ++ take n b }
]

-- `content` is what the file holds, and `size` counts what was written without an error.
pub record VFile : Type 0 where
  pub content : Bytes
  pub size : ℕ
  pub ttl : ℕ
  pub expire_at : ℕ

abbrev pub grace : ℕ
grace = 5000000000

-- VFileNew, but for the name and the open files
unfoldable pub new_file : ℕ → ℕ → VFile
new_file ttl now = record { content = []; size = 0; ttl = ttl; expire_at = now + ttl + grace }

unfoldable pub file_expired : VFile → ℕ → Bool
file_expired f now = ltb f.expire_at now

-- VFile.Write; the count is what it returns
unfoldable pub write_file : Os → ℕ → Bytes → VFile → VFile × Written
unfolding append_file
write_file os now b f =
    let r = append_file os f.content b in
    let g = record f { content = r.content; expire_at = now + f.ttl + grace } in
    (if r.failed then g else record g { size = f.size + r.count }, r)

-- Several writes, up to the first that fails: the count of all, and whether one failed.
unfoldable pub write_chunks : Os → ℕ → List Bytes → VFile → VFile × (ℕ × Bool)
write_chunks os now [] f = (f, (0, false))
write_chunks os now (b ∷ bs) f =
    let (g, r) = write_file os now b f in
    let (h, (n, bad)) = write_chunks os now bs g in
    if r.failed then (g, (r.count, true)) else (h, (r.count + n, bad))

-- os.File.ReadAt: the bytes read, fewer than asked for at the end of the file, or the count that
-- comes with an error other than the end of the file.
pub data Read : Type 0 where
  got : Bytes → Read
  broke : ℕ → Read

unfoldable pub read_at : Os → Bytes → ℕ → ℕ → Read
read_at os content off len = elim (os.read_fault off) [
  | none ↦ got (take len (drop off content))
  | some n ↦ broke n
]
