-- ===== src/FunctimeModule/Modifier.antt =====
-- cacheability_modifier of functime_debugger/kernel/functime_kernel_module.c, the callback that
-- Linux's page walker makes at each page of an area.
pub mod Pages
use blackbox_profiling.Base.{
  ℕ, Bool, not, Option, some, List, [], ◌∷◌, ◌++◌, ◌==◌, if◌then◌else◌, ◌>>=◌, update,
}
use blackbox_profiling.Linux.{Arch, Vma, Action, set_pte, flush_tlb}
use blackbox_profiling.CacheLines.{invalidate_page_l1, invalidate_page_l2}

-- What the callback changes: the protection of the area, the entries, and the machine's caches.
pub record Walk : Type 0 where
  pub area : Vma
  pub ptes : ℕ → ℕ
  pub log : List Action

-- The loop over `page_addr`: the first entry that is `addr` turns `skip` over, and ends the loop.
unfoldable pub skip_page : Bool → List ℕ → ℕ → Bool
skip_page should_skip [] addr = should_skip
skip_page should_skip (p ∷ ps) addr =
    if addr == p then not should_skip else skip_page should_skip ps addr

-- The `else` block: the page is made noncacheable.
unfoldable pub remap : Arch → ℕ → Walk → Option Walk
remap arch addr w =
    let prot = pgprot_noncached w.area.vm_page_prot in
    let pte = w.ptes addr in
    let page = pte_page pte in
    let newpte = pfn_pte (pte_pfn pte) prot in
    do
      l1 ← invalidate_page_l1 (kmap page)
      l2 ← invalidate_page_l2 (page_to_phys page)
      some (record {
        area = record w.area { vm_page_prot = prot };
        ptes = update w.ptes addr newpte;
        log = w.log ++ (l1 ++ (l2 ++ (set_pte addr newpte ∷ flush_tlb addr ∷ [])));
      })
  where
    open arch use {pgprot_noncached, pte_page, pfn_pte, pte_pfn, kmap, page_to_phys}

unfoldable pub cacheability_modifier : Arch → Bool → List ℕ → ℕ → Walk → Option Walk
unfolding skip_page remap
cacheability_modifier arch should_skip page_addr addr w =
    if skip_page should_skip page_addr addr then some w else remap arch addr w

-- `apply_to_page_range` over the addresses of a range. Every callback returns 0, so the walk goes
-- to its end.
unfoldable pub walk_range : (ℕ → Walk → Option Walk) → List ℕ → Walk → Option Walk
walk_range callback [] w = some w
walk_range callback (addr ∷ addrs) w = callback addr w >>= walk_range callback addrs

abbrev pub walk_pages : Arch → Bool → List ℕ → List ℕ → Walk → Option Walk
walk_pages arch should_skip page_addr =
    walk_range (cacheability_modifier arch should_skip page_addr)
