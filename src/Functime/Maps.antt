-- ===== src/Functime/Maps.antt =====
-- vma_alloc, scan_proc_maps_line and read_proc_maps_file of functime_debugger/functime.c. `none` is
-- a crash or undefined behaviour: a null pointer is written through, or variables are read that
-- `sscanf` did not set.
pub mod Room
use blackbox_profiling.Base.{
  ℕ, if◌then◌else◌, ◌==◌, ◌>>=◌, drop_last, take, get_elem?, page_size, sub_word, ◌+◌, ◌/◌, Bool,
  true, false, not, ◌&&◌, Option, none, some, List, [], ◌∷◌, ◌++◌, zero, suc,
}

-- What `sscanf` reads of a line of /proc/PID/maps. `mappedfile` is empty where the line has none.
pub record MapsLine : Type 0 where
  pub start : ℕ
  pub end : ℕ
  pub perms : List ℕ
  pub offset : ℕ
  pub dev : List ℕ
  pub inode : ℕ
  pub mappedfile : List ℕ

-- `struct l2p__vma_struct`, with its flags as Booleans.
pub record MapsVma : Type 0 where
  pub chunk_id : ℕ
  pub start : ℕ
  pub end : ℕ
  pub len : ℕ
  pub offset : ℕ
  pub inode : ℕ
  pub perms : List ℕ
  pub dev : List ℕ
  pub mappedfile : List ℕ
  pub readable : Bool
  pub writable : Bool
  pub executable : Bool
  pub shared : Bool
  pub fmapped : Bool
  pub stack : Bool
  pub heap : Bool

-- The static variables: `used` is `vma_idx` + 1, and `vmas` holds the slots filled so far, the
-- latest first. `vma_idx` is never reset.
pub record MapsState : Type 0 where
  pub used : ℕ
  pub vmas : List MapsVma
  pub heap_size : ℕ

abbrev pub max_num_vma : ℕ
max_num_vma = 1024

abbrev pub max_vma_mappedfile : ℕ
max_vma_mappedfile = 33

-- `vma_idx` goes up by one; the slot that it then names, or a null pointer at the end of the array.
unfoldable pub vma_alloc : MapsState → Option ℕ × MapsState
vma_alloc s = (if s.used == max_num_vma then none else some s.used, record s { used = s.used + 1 })

-- Two texts, as `strcmp` compares them.
abbrev pub str_eq : List ℕ → List ℕ → Bool
str_eq [] [] = true
str_eq (a ∷ as') (b ∷ bs) = a == b && str_eq as' bs
str_eq [] (b ∷ bs) = false
str_eq (a ∷ as') [] = false

-- What stands behind the last slash: p + 1, where p is the result of `strrchr (buf, '/')`.
abbrev pub after_slash : List ℕ → Option (List ℕ)
after_slash [] = none
after_slash (c ∷ cs) = elim (after_slash cs) [
  | some rest ↦ some rest
  | none ↦ if c == b'/' then some cs else none
]

-- "[heap]", "[stack]" and "unknown".
abbrev pub heap_name : List ℕ
heap_name = b'[' ∷ b'h' ∷ b'e' ∷ b'a' ∷ b'p' ∷ b']' ∷ []

abbrev pub stack_name : List ℕ
stack_name = b'[' ∷ b's' ∷ b't' ∷ b'a' ∷ b'c' ∷ b'k' ∷ b']' ∷ []

abbrev pub unknown : List ℕ
unknown = b'u' ∷ b'n' ∷ b'k' ∷ b'n' ∷ b'o' ∷ b'w' ∷ b'n' ∷ []

-- The name kept for an area: the last component of a path, a single name, or the name of the area
-- before it in brackets; each cut to 32 bytes.
unfoldable pub file_name : List ℕ → List ℕ → List ℕ → List ℕ
file_name buf [] defname = take 32 (b'[' ∷ (defname ++ (b']' ∷ [])))
file_name buf (c ∷ cs) defname = elim (after_slash buf) [
  | none ↦ take 32 (c ∷ cs)
  | some rest ↦ take 32 rest
]

-- perms[i] == c.
abbrev pub perm_is : List ℕ → ℕ → ℕ → Bool
perm_is perms i c = elim (get_elem? perms i) [ none ↦ false | some x ↦ x == c ]

-- The slot as the code fills it.
unfoldable pub fill_vma : ℕ → List ℕ → List ℕ → MapsLine → MapsVma
unfolding file_name
fill_vma chunk_id buf defname l = record {
  chunk_id = chunk_id;
  start = l.start;
  end = l.end;
  len = sub_word l.end l.start;
  offset = l.offset;
  inode = l.inode;
  perms = take 5 l.perms;
  dev = take 6 l.dev;
  mappedfile = file_name buf l.mappedfile defname;
  readable = perm_is l.perms 0 b'r';
  writable = perm_is l.perms 1 b'w';
  executable = perm_is l.perms 2 b'x';
  shared = perm_is l.perms 3 b's';
  fmapped = not (l.inode == 0);
  stack = str_eq l.mappedfile stack_name;
  heap = str_eq l.mappedfile heap_name;
}

-- `heap_size` behind a line.
abbrev pub heap_of : MapsLine → ℕ → ℕ
heap_of l size = if str_eq l.mappedfile heap_name then sub_word l.end l.start / page_size else size

module _ (sscanf : List ℕ → Option MapsLine) where
  -- `none` from `sscanf` is fewer than six conversions: the code prints a message and goes on with
  -- variables that were not set.
  unfoldable pub scan_proc_maps_line :
      ℕ → List ℕ → List ℕ → MapsState → Option (MapsVma × MapsState)
  unfolding vma_alloc
  scan_proc_maps_line chunk_id buf defname s = do
    l ← sscanf buf
    _ ← (vma_alloc s).0
    let vma = fill_vma chunk_id buf defname l
    some (vma, record (vma_alloc s).1 { vmas = vma ∷ s.vmas; heap_size = heap_of l s.heap_size })

  -- The lines that `fgets` gives up to the end of the file, each with its last byte, the newline,
  -- taken off. Reading is taken not to fail.
  pub scan_lines : ℕ → List (List ℕ) → List ℕ → MapsState → Option MapsState
  scan_lines nvma [] defname s = some s
  scan_lines nvma (l ∷ ls) defname s =
      scan_proc_maps_line nvma (drop_last l) defname s
      >>= (λ r. scan_lines (nvma + 1) ls r.0.mappedfile r.1)

  -- `none` for the file is a failed `fopen`, whose null stream is then read.
  unfoldable pub read_proc_maps_file : Option (List (List ℕ)) → MapsState → Option MapsState
  unfolding scan_lines
  read_proc_maps_file file s = file >>= (λ ls. scan_lines 0 ls unknown s)

  -- "has heap already been scanned? if no scan it": the test before the scan in handle_trace_event.
  unfoldable pub ensure_heap : Option (List (List ℕ)) → MapsState → Option MapsState
  ensure_heap file s = if s.heap_size == 0 then read_proc_maps_file file s else some s

  -- That test in `n` runs, where the file reads the same in each.
  pub scan_runs : Option (List (List ℕ)) → ℕ → MapsState → Option MapsState
  scan_runs file zero s = some s
  scan_runs file (suc n) s = ensure_heap file s >>= scan_runs file n
