-- ===== src/Tools/Archive.antt =====
-- tools/archive-mount/src/archive-engine.c. libarchive is what the code calls: an archive is the list
-- of the headers that it gives up to its end, and each says with which status it was read and what
-- the calls on the entry answer. The steps that the
-- code takes are the list of what it asks libarchive to write, and of what it acquires and releases.
use tizen_os.Base.{
  ℕ, suc, ◌+◌, ◌≡◌, refl, ap, Bool, true, false, ◌&&◌, Option, none, some, List, [], ◌∷◌, ◌++◌,
  arith, ltb, if◌then◌else◌, zero, ◌≤◌, sym, ◌∙◌, append_assoc, append-nil, length, take, All,
  length-append,
}
use tizen_os.Libc.{Bytes, snprintf, starts_with}

-- What `archive_read_data_block` gives, and whether `archive_write_data_block` succeeds on it.
pub record Block : Type 0 where
  pub bytes : Bytes
  pub offset : ℕ
  pub is_written : Bool

-- `read_ok` says that `archive_read_next_header` gave the entry with `ARCHIVE_OK`, and not with a warning
-- or an error.
pub record Entry : Type 0 where
  pub read_ok : Bool
  pub pathname : Bytes
  pub header_ok : Bool
  pub size : ℕ
  pub blocks : List Block

pub data Step : Type 0 where
  read_new write_disk_new read_free write_free : Step
  write_header : Bytes → Step
  write_data : Bytes → ℕ → Step
  finish_entry : Step

-- `snprintf (full_path, 1024, "%s/%s", …)`
abbrev pub full_path : Bytes → Bytes → Bytes
full_path dest_dir current_file = snprintf 1024 (dest_dir ++ b'/' ∷ current_file)

-- The inner loop: it ends at the first block that cannot be written.
unfoldable pub write_blocks : List Block → List Step
write_blocks [] = []
write_blocks (b ∷ bs) =
    let rest = write_blocks bs in write_data b.bytes b.offset ∷ (if b.is_written then rest else [])

-- One round of the outer loop, on an entry whose header was read.
unfoldable pub extract_entry : Bytes → Entry → List Step
extract_entry dest_dir e =
    let body = if e.header_ok && ltb 0 e.size then write_blocks e.blocks else [] in
    write_header (full_path dest_dir e.pathname) ∷ (body ++ finish_entry ∷ [])

-- The outer loop ends at the first header that is not read with `ARCHIVE_OK`.
unfoldable pub extract_all : Bytes → List Entry → List Step
extract_all dest_dir [] = []
extract_all dest_dir (e ∷ es) =
    let rest = extract_all dest_dir es in if e.read_ok then extract_entry dest_dir e ++ rest else []

-- `extract_archive`, on the entries of the archive, where it opens: its result and its steps.
unfoldable pub extract_archive : Option (List Entry) → Bytes → Bool × List Step
extract_archive none dest_dir = (false, read_new ∷ write_disk_new ∷ [])
extract_archive (some entries) dest_dir = (
  true,
  read_new ∷ write_disk_new ∷ (extract_all dest_dir entries ++ read_free ∷ write_free ∷ []),
)

-- How often the steps finish an entry, and begin one.
pub finished : List Step → ℕ
finished [] = 0
finished (finish_entry ∷ ss) = suc (finished ss)
finished (_ ∷ ss) = finished ss

-- The paths of the entries that the steps begin.
pub paths : List Step → List Bytes
paths [] = []
paths (write_header p ∷ ss) = p ∷ paths ss
paths (_ ∷ ss) = paths ss

finished-append : (xs ys : List Step) → finished (xs ++ ys) ≡ finished xs + finished ys
unfolding finished
finished-append [] ys = omega arith
finished-append (finish_entry ∷ xs) ys = omega (arith, finished-append xs ys)
finished-append (read_new ∷ xs) ys = finished-append xs ys
finished-append (write_disk_new ∷ xs) ys = finished-append xs ys
finished-append (read_free ∷ xs) ys = finished-append xs ys
finished-append (write_free ∷ xs) ys = finished-append xs ys
finished-append (write_header p ∷ xs) ys = finished-append xs ys
finished-append (write_data b o ∷ xs) ys = finished-append xs ys

paths-append : (xs ys : List Step) → paths (xs ++ ys) ≡ paths xs ++ paths ys
unfolding paths
paths-append [] ys = refl
paths-append (finish_entry ∷ xs) ys = paths-append xs ys
paths-append (read_new ∷ xs) ys = paths-append xs ys
paths-append (write_disk_new ∷ xs) ys = paths-append xs ys
paths-append (read_free ∷ xs) ys = paths-append xs ys
paths-append (write_free ∷ xs) ys = paths-append xs ys
paths-append (write_header p ∷ xs) ys = ap (◌∷◌ p) (paths-append xs ys)
paths-append (write_data b o ∷ xs) ys = paths-append xs ys

blocks_begin_none :
    (bs : List Block) → (finished (write_blocks bs) ≡ 0) × (paths (write_blocks bs) ≡ [])
unfolding write_blocks finished paths
blocks_begin_none [] = (refl, refl)
blocks_begin_none (b ∷ bs) = ground (arith, blocks_begin_none bs)

entry_lem :
    (dest : Bytes) (e : Entry)
    → (finished (extract_entry dest e) ≡ 1)
      × (paths (extract_entry dest e) ≡ full_path dest e.pathname ∷ [])
unfolding extract_entry finished paths
entry_lem dest e =
    let body = if e.header_ok && ltb 0 e.size then write_blocks e.blocks else [] in
    let none_in = blocks_begin_none e.blocks in
    ground (
      arith,
      finished-append body (finish_entry ∷ []),
      paths-append body (finish_entry ∷ []),
      none_in,
    )

starts_with-append : (p s : Bytes) (n : ℕ) → length p ≤ n → starts_with p (take n (p ++ s)) ≡ true
unfolding starts_with
starts_with-append [] s n h = refl
starts_with-append (c ∷ cs) s zero h = absurd (omega arith)
starts_with-append (c ∷ cs) s (suc n) h = ground (arith, starts_with-append cs s n)

full_path_inside :
    (dest name : Bytes)
    → length dest ≤ 1022
    → starts_with (dest ++ b'/' ∷ []) (full_path dest name) ≡ true
full_path_inside dest name h =
    let l = length-append dest (b'/' ∷ []) in
    let e = starts_with-append (dest ++ b'/' ∷ []) name 1023 (omega arith) in
    ap (λ t. starts_with (dest ++ b'/' ∷ []) (take 1023 t))
      (sym (append_assoc dest (b'/' ∷ []) name))
    ∙ e

-- The paths of the entries below a directory.
abbrev pub placed : Bytes → List Entry → List Bytes
placed dest [] = []
placed dest (e ∷ es) = full_path dest e.pathname ∷ placed dest es

-- Headers that are read as they should be, and what comes behind them: nothing, or first one that is
-- not.
abbrev pub AreRead : List Entry → Type 0
AreRead = All (λ e. e.read_ok ≡ true)

abbrev pub Ends : List Entry → Type 0
Ends [] = Unit {0}
Ends (e ∷ es) = e.read_ok ≡ false

extract_all-cons :
    (dest : Bytes) (e : Entry) (es : List Entry)
    → e.read_ok ≡ true
    → extract_all dest (e ∷ es) ≡ extract_entry dest e ++ extract_all dest es
unfolding extract_all
extract_all-cons dest e es h = rw h

all_lem :
    (dest : Bytes) (es rest : List Entry)
    → AreRead es
    → Ends rest
    → (finished (extract_all dest (es ++ rest)) ≡ length es)
      × (paths (extract_all dest (es ++ rest)) ≡ placed dest es)
unfolding extract_all finished paths
all_lem dest [] [] r h = (refl, refl)
all_lem dest [] (bad ∷ rest) r h = rw h (refl, refl)
all_lem dest (e ∷ es) rest r h =
    let one = entry_lem dest e in
    let more = all_lem dest es rest r.1 h in
    let others = extract_all dest (es ++ rest) in
    let f = finished-append (extract_entry dest e) others in
    let p = paths-append (extract_entry dest e) others in
    let here = extract_all-cons dest e (es ++ rest) r.0 in
    (
      ap finished here ∙ omega (arith, one.0, more.0, f),
      ap paths here
          ∙ p
          ∙ ap (λ x. x ++ paths others) one.1
          ∙ ap (◌∷◌ (full_path dest e.pathname)) more.1,
    )

placed_inside :
    (dest : Bytes) (es : List Entry)
    → length dest ≤ 1022
    → All (λ p. starts_with (dest ++ b'/' ∷ []) p ≡ true) (placed dest es)
placed_inside dest [] h = tt
placed_inside dest (e ∷ es) h = (full_path_inside dest e.pathname h, placed_inside dest es h)

-- Where the destination and a slash fit the buffer, extraction from an archive that opens begins as
-- many entries as it finishes: one for each entry, in their order, up to the end of the archive or to
-- the first whose header libarchive does not read with `ARCHIVE_OK`, be it a warning only, and none
-- from there on, whatever errors writing the headers and blocks have. It reports success in each of
-- these cases; each path that it writes to is the entry's behind the destination and a slash, cut to
-- the buffer, and starts with these.
pub extract_lem :
    (entries rest : List Entry) (dest : Bytes)
    → length dest ≤ 1022
    → AreRead entries
    → Ends rest
    → let (ok, steps) = extract_archive (some (entries ++ rest)) dest in
      (ok ≡ true)
      × (finished steps ≡ length entries)
      × (paths steps ≡ placed dest entries)
      × All (λ p. starts_with (dest ++ b'/' ∷ []) p ≡ true) (paths steps)
unfolding extract_archive finished paths
extract_lem entries rest dest h r k =
    let body = all_lem dest entries rest r k in
    let all = extract_all dest (entries ++ rest) in
    let f = finished-append all (read_free ∷ write_free ∷ []) in
    let p = paths-append all (read_free ∷ write_free ∷ []) ∙ append-nil (paths all) ∙ body.1 in
    (refl, omega (arith, f, body.0), p, rw p (placed_inside dest entries h))

-- `create_archive` writes nothing.
unfoldable pub create_archive : Bytes → List Bytes → Bool
create_archive archive_path files = true
