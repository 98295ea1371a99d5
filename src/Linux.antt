-- ===== src/Linux.antt =====
-- What the kernel modules read of Linux's own structures, and what they call of Linux. The calls
-- are parameters: `Arch` holds the page-table helpers and the page walker, and `ArchLaws` says what
-- the modules rely on.
use blackbox_profiling.Base.{
  ℕ, ◌+◌, ◌*◌, ◌<◌, ◌≤◌, ◌%◌, ◌≡◌, [], ◌∷◌, word, Bool, true, Option, List, elem, page_size,
}

-- The bits of `vm_flags` that the modules test.
pub record VmFlags : Type 0 where
  pub readable : Bool
  pub writable : Bool
  pub executable : Bool
  pub shared : Bool
  pub io : Bool
  pub pfnmap : Bool

-- `struct vm_area_struct`, less its links: the list of the areas stands for them.
pub record Vma : Type 0 where
  pub vm_start : ℕ
  pub vm_end : ℕ
  pub vm_page_prot : ℕ
  pub vm_flags : VmFlags

-- `struct mm_struct`. `ptes` gives the page-table entry behind each virtual page address.
pub record Mm : Type 0 where
  pub mmap : List Vma
  pub map_count : ℕ
  pub start_brk : ℕ
  pub brk : ℕ
  pub ptes : ℕ → ℕ

-- `struct task_struct`. A kernel thread has no `mm`.
pub record Task : Type 0 where
  pub pid : ℕ
  pub comm : List ℕ
  pub mm : Option Mm

-- What a module does to the machine, in the order in which it does it: lines cleaned and
-- invalidated by virtual address in L1 and by physical address in L2, entries written, and
-- translations flushed.
pub data Action : Type 0 where
  clean_l1 : ℕ → Action
  clean_l2 : ℕ → Action
  set_pte : ℕ → ℕ → Action
  flush_tlb : ℕ → Action

-- Linux's helpers. `pte_walk start size` lists the addresses at which `apply_to_page_range` calls
-- its callback.
pub record Arch : Type 0 where
  pub pgprot_noncached : ℕ → ℕ
  pub pte_pfn : ℕ → ℕ
  pub pfn_pte : ℕ → ℕ → ℕ
  pub pte_page : ℕ → ℕ
  pub page_to_phys : ℕ → ℕ
  pub kmap : ℕ → ℕ
  pub pte_walk : ℕ → ℕ → List ℕ

-- An entry made from a frame and a protection holds that frame, taking the cacheability away twice
-- is taking it away once, and the walker visits the page addresses of its range.
pub record ArchLaws (a : Arch) : Type 0 where
  pub pte_pfn-pfn_pte : (n prot : ℕ) → a.pte_pfn (a.pfn_pte n prot) ≡ n
  pub noncached_twice :
      (prot : ℕ) → a.pgprot_noncached (a.pgprot_noncached prot) ≡ a.pgprot_noncached prot
  pub walk_in :
      (start size k : ℕ)
      → k * page_size < size
      → elem (start + k * page_size) (a.pte_walk start size) ≡ true
  pub walk_only :
      (start size addr : ℕ)
      → elem addr (a.pte_walk start size) ≡ true
      → (k : ℕ) × (k * page_size < size) × (addr ≡ start + k * page_size)

-- The `FOLL_WRITE` and `FOLL_FORCE` bits; `FOLL_TOUCH` and `FOLL_POPULATE` are always set.
pub record GupFlags : Type 0 where
  pub write : Bool
  pub force : Bool

-- What `__get_user_pages` returns: how many pages it faulted in, or an error number.
pub data GupRet : Type 0 where
  pages : ℕ → GupRet
  failed : ℕ → GupRet

pub record Faulted : Type 0 where
  pub ret : GupRet
  pub locked : Bool
  pub ptes : ℕ → ℕ

-- `find_vma mmap addr` is the area that Linux finds, with the areas behind it; `get_user_pages`
-- takes a start address, a number of pages, the flags and the entries.
pub record Gup : Type 0 where
  pub find_vma : List Vma → ℕ → List Vma
  pub get_user_pages : ℕ → ℕ → GupFlags → (ℕ → ℕ) → Faulted

-- The areas of a process: whole pages, not empty, one behind another, below the end of the address
-- space.
abbrev pub AreasFrom : ℕ → List Vma → Type 0
AreasFrom low [] = Unit {0}
AreasFrom low (v ∷ vs) =
    (low ≤ v.vm_start)
    × (v.vm_start < v.vm_end)
    × (v.vm_end < word)
    × (v.vm_start % page_size ≡ 0)
    × (v.vm_end % page_size ≡ 0)
    × AreasFrom v.vm_end vs

-- No area, or a first one that ends behind the address.
abbrev pub EndsAfter : ℕ → List Vma → Type 0
EndsAfter a [] = Unit {0}
EndsAfter a (v ∷ vs) = a < v.vm_end

-- `find_vma` finds an area that ends behind the address, and the areas that it hands on are still
-- in order; a call for at least one page faults in at least one page and at most all of them, or
-- fails.
pub record GupLaws (g : Gup) : Type 0 where
  pub find_vma-AreasFrom : (m : List Vma) (a : ℕ) → AreasFrom 0 m → AreasFrom 0 (g.find_vma m a)
  pub find_vma-EndsAfter : (m : List Vma) (a : ℕ) → EndsAfter a (g.find_vma m a)
  pub gup_progress :
      (start nr n : ℕ) (f : GupFlags) (ptes : ℕ → ℕ)
      → 0 < nr
      → (g.get_user_pages start nr f ptes).ret ≡ pages n
      → (0 < n) × (n ≤ nr)
