-- ===== src/FunctimeModule/Modifier/Pages.antt =====
-- Which pages a walk makes noncacheable, and what becomes of their entries.
use blackbox_profiling.Base.{
  ℕ, ◌≡◌, refl, arith, inl, inr, Bool, not, ◌&&◌, some, List, [], ◌∷◌, ◌++◌, if◌then◌else◌, update,
  elem, Bool-cases,
}
use blackbox_profiling.Linux.{Arch, ArchLaws, Action, set_pte, flush_tlb}
use blackbox_profiling.CacheLines.Cover.{
  l1_actions, l2_actions, invalidate_page_l1_lem, invalidate_page_l2_lem,
}
use blackbox_profiling.FunctimeModule.Modifier.{
  Walk, skip_page, remap, cacheability_modifier, walk_pages, walk_range,
}

-- The decision depends on whether the page is listed only.
pub skip_page_lem :
    (b : Bool) (ps : List ℕ) (addr : ℕ) → skip_page b ps addr ≡ (if elem addr ps then not b else b)
unfolding skip_page
skip_page_lem b [] addr = refl
skip_page_lem b (p ∷ ps) addr = ground (arith, skip_page_lem b ps addr)

module _ (arch : Arch) where
  open arch use {pgprot_noncached, pte_page, pfn_pte, pte_pfn, kmap, page_to_phys}

  -- The steps of making the page at `addr` noncacheable, in order.
  pub remap_actions : ℕ → ℕ → ℕ → List Action
  remap_actions prot pte addr =
      l1_actions (kmap (pte_page pte))
      ++ (l2_actions (page_to_phys (pte_page pte))
          ++ (set_pte addr (pfn_pte (pte_pfn pte) prot) ∷ flush_tlb addr ∷ []))

  pub remapped : ℕ → Walk → Walk
  remapped addr w =
      let prot = pgprot_noncached w.area.vm_page_prot in
      record {
        area = record w.area { vm_page_prot = prot };
        ptes = update w.ptes addr (pfn_pte (pte_pfn (w.ptes addr)) prot);
        log = w.log ++ remap_actions prot (w.ptes addr) addr;
      }

  -- Making a page noncacheable never fails.
  pub remap_lem : (addr : ℕ) (w : Walk) → remap arch addr w ≡ some (remapped addr w)
  unfolding remap remapped remap_actions
  remap_lem addr w = rw (invalidate_page_l1_lem, invalidate_page_l2_lem)

  abbrev modified : Bool → List ℕ → ℕ → Walk → Walk
  modified b ps addr w = if skip_page b ps addr then w else remapped addr w

  pub walked : Bool → List ℕ → List ℕ → Walk → Walk
  walked b ps [] w = w
  walked b ps (addr ∷ addrs) w = walked b ps addrs (modified b ps addr w)

  -- A walk never fails.
  pub walk_pages_lem :
      (b : Bool) (ps addrs : List ℕ) (w : Walk)
      → walk_pages arch b ps addrs w ≡ some (walked b ps addrs w)
  unfolding walk_range walked cacheability_modifier
  walk_pages_lem b ps [] w = refl
  walk_pages_lem b ps (addr ∷ addrs) w = elim (Bool-cases (skip_page b ps addr)) [
    | inl e ↦ rw e (walk_pages_lem b ps addrs w)
    | inr e ↦ rw (e, remap_lem addr w) (walk_pages_lem b ps addrs (remapped addr w))
  ]

  -- What an entry becomes when its page is made noncacheable.
  abbrev pub noncached_pte : ℕ → ℕ → ℕ
  noncached_pte prot pte = pfn_pte (pte_pfn pte) (pgprot_noncached prot)

  walked_ptes :
      (laws : ArchLaws arch) (b : Bool) (ps addrs : List ℕ) (w : Walk) (a : ℕ)
      → (walked b ps addrs w).ptes a ≡ (
          if elem a addrs && not (skip_page b ps a)
          then noncached_pte w.area.vm_page_prot (w.ptes a)
          else w.ptes a)
  unfolding walked remapped
  walked_ptes laws b ps [] w a = refl
  walked_ptes laws b ps (addr ∷ addrs) w a =
      let prot = w.area.vm_page_prot in
      ground (
        arith,
        walked_ptes laws b ps addrs (modified b ps addr w) a,
        laws.noncached_twice prot,
        laws.pte_pfn-pfn_pte (pte_pfn (w.ptes a)) (pgprot_noncached prot),
      )

  -- A walk over any pages always succeeds. An entry changes exactly if the walk visits its page and
  -- the page is listed with `should_skip` set, or is not listed with it clear; it is then the same
  -- frame, noncacheable. The page's frame never changes.
  pub walk_pages_select :
      (laws : ArchLaws arch) (b : Bool) (ps addrs : List ℕ) (w : Walk) (a : ℕ)
      → (w' : Walk) × (walk_pages arch b ps addrs w ≡ some w')
        × (w'.ptes a ≡ (
            if elem a addrs && (if elem a ps then b else not b)
            then noncached_pte w.area.vm_page_prot (w.ptes a)
            else w.ptes a))
        × (pte_pfn (w'.ptes a) ≡ pte_pfn (w.ptes a))
  walk_pages_select laws b ps addrs w a =
      let e = walked_ptes laws b ps addrs w a in
      (
        walked b ps addrs w,
        walk_pages_lem b ps addrs w,
        ground (arith, e, skip_page_lem b ps a),
        ground (
          arith,
          e,
          laws.pte_pfn-pfn_pte (pte_pfn (w.ptes a)) (pgprot_noncached w.area.vm_page_prot),
        ),
      )
