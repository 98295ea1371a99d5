-- ===== src/Tests/Machine.antt =====
-- A small instance of what the kernel modules call of Linux: an entry is a frame and a bit that
-- says whether it is noncacheable, and every page that is asked for is faulted in at once.
use blackbox_profiling.Base.{
  ℕ, if◌then◌else◌, ltb, ltb→lt, ◌==◌, Bool-cases, elem, page_size, zero, suc, ◌+◌, ◌*◌, ◌/◌, ◌%◌,
  ◌<◌, ◌≡◌, refl, inl, inr, true, false, none, some, List, [], ◌∷◌, arith,
}
use blackbox_profiling.Linux.{
  ArchLaws, Mm, Task, VmFlags, Gup, GupLaws, Vma, pages, AreasFrom, EndsAfter, Arch,
}
use blackbox_profiling.FunctimeModule.Finder.Area.{IsArea}

abbrev pub walk_from : ℕ → ℕ → List ℕ
walk_from start zero = []
walk_from start (suc n) = start ∷ walk_from (start + page_size) n

abbrev pub toy_arch : Arch
toy_arch = record {
  pgprot_noncached = λ prot. 1;
  pte_pfn = λ pte. pte / 2;
  pfn_pte = λ n prot. n * 2 + prot % 2;
  pte_page = λ pte. pte / 2;
  page_to_phys = λ page. page * 4096;
  kmap = λ page. page * 4096;
  pte_walk = λ start size. walk_from start ((size + 4095) / 4096);
}

elem-walk_from :
    (k start n a : ℕ) → k < n → a ≡ start + k * page_size → elem a (walk_from start n) ≡ true
elem-walk_from k start zero a h e = elim h [ ]
elem-walk_from zero start (suc n) a h e = ground arith
elem-walk_from (suc k) start (suc n) a h e =
    ground (arith, elem-walk_from k (start + page_size) n a (omega arith) (omega arith))

walk_from-only :
    (addr start n : ℕ)
    → elem addr (walk_from start n) ≡ true
    → (k : ℕ) × (k < n) × (addr ≡ start + k * page_size)
walk_from-only addr start zero h = absurd (ground arith)
walk_from-only addr start (suc n) h = elim (Bool-cases (addr == start)) [
  | inl e ↦ (0, omega arith, ground arith)
  | inr e ↦
      let (k, lt, at) = walk_from-only addr (start + page_size) n (ground arith) in
      (suc k, omega arith, omega arith)
]

pub toy_arch_laws : ArchLaws toy_arch
toy_arch_laws = record {
  pte_pfn-pfn_pte = λ n prot. omega arith;
  noncached_twice = λ prot. refl;
  walk_in = λ start size k h.
      elem-walk_from k start ((size + 4095) / 4096) (start + k * page_size) (omega arith) refl;
  walk_only = λ start size addr h.
      let (k, lt, at) = walk_from-only addr start ((size + 4095) / 4096) h in (k, omega arith, at);
}

abbrev pub first_behind : List Vma → ℕ → List Vma
first_behind [] a = []
first_behind (v ∷ vs) a = if ltb a v.vm_end then v ∷ vs else first_behind vs a

abbrev pub toy_gup : Gup
toy_gup = record {
  find_vma = first_behind;
  get_user_pages = λ start nr flags ptes. record { ret = pages nr; locked = true; ptes = ptes };
}

first_behind-AreasFrom :
    (low : ℕ) (m : List Vma) (a : ℕ) → AreasFrom low m → AreasFrom 0 (first_behind m a)
first_behind-AreasFrom low [] a h = tt
first_behind-AreasFrom low (v ∷ vs) a h = elim (Bool-cases (ltb a v.vm_end)) [
  | inl e ↦ rw e (omega arith, h.1, h.2, h.3, h.4, h.5)
  | inr e ↦ rw e (first_behind-AreasFrom v.vm_end vs a h.5)
]

first_behind-EndsAfter : (m : List Vma) (a : ℕ) → EndsAfter a (first_behind m a)
first_behind-EndsAfter [] a = tt
first_behind-EndsAfter (v ∷ vs) a = elim (Bool-cases (ltb a v.vm_end)) [
  | inl e ↦ rw e (ltb→lt a v.vm_end e)
  | inr e ↦ rw e (first_behind-EndsAfter vs a)
]

pages_injective : (m n : ℕ) → pages m ≡ pages n → m ≡ n
pages_injective m n e = cc

pub toy_gup_laws : GupLaws toy_gup
toy_gup_laws = record {
  find_vma-AreasFrom = λ m a h. first_behind-AreasFrom 0 m a h;
  find_vma-EndsAfter = first_behind-EndsAfter;
  gup_progress = λ start nr n f ptes pos e.
      (omega (arith, pages_injective nr n e), omega (arith, pages_injective nr n e));
}

abbrev pub plain_flags : VmFlags
plain_flags = record {
  readable = true;
  writable = true;
  executable = false;
  shared = false;
  io = false;
  pfnmap = false;
}

-- A text area of one page, and a heap of three.
abbrev pub text_area : Vma
text_area = record { vm_start = 4096; vm_end = 8192; vm_page_prot = 0; vm_flags = plain_flags }

abbrev pub heap_area : Vma
heap_area = record { vm_start = 12288; vm_end = 24576; vm_page_prot = 0; vm_flags = plain_flags }

-- Each page lies in the frame of its own address, cacheable.
abbrev pub toy_mm : Mm
toy_mm = record {
  mmap = text_area ∷ heap_area ∷ [];
  map_count = 2;
  start_brk = 12288;
  brk = 20000;
  ptes = λ a. a * 2;
}

abbrev pub toy_task : Task
toy_task = record { pid = 7; comm = []; mm = some toy_mm }

abbrev pub other_task : Task
other_task = record { pid = 8; comm = []; mm = none }

pub toy_areas : AreasFrom 0 toy_mm.mmap
toy_areas = omega arith

pub heap_IsArea : IsArea heap_area
heap_IsArea = omega arith
