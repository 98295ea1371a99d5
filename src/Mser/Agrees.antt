-- ===== src/Mser/Agrees.antt =====
-- The two modules against both_multiple.c.
use blackbox_profiling.Base.{
  ℕ, word, ◌%◌, ◌≡◌, refl, ap, Option, some, List, [], ◌∷◌, ◌++◌, map, ◌==◌, Bool-cases, update,
  sub_word, sym, ◌∙◌, inl, inr, true, false, elem, arith, if◌then◌else◌, Bool,
}
use blackbox_profiling.Mser.{remap_user, skip_one, change_others, change_page}
use blackbox_profiling.Linux.{
  clean_l1, set_pte, clean_l2, Action, flush_tlb, Arch, Vma, Gup, ArchLaws,
}
use blackbox_profiling.FunctimeModule.Modifier.{Walk, remap, skip_page, walk_range}
use blackbox_profiling.CacheLines.Cover.{
  l1_actions, lines_from, invalidate_page_l1_lem, l2_actions, invalidate_page_l2_lem,
}
use blackbox_profiling.BothMultiple.{print_mem, change_heap}
use blackbox_profiling.FunctimeModule.Populate.{finished, mm_populate, Pop}
use blackbox_profiling.FunctimeModule.Finder.{page_address, change_area}
use blackbox_profiling.BothMultiple.Agrees.{change_heap-eq-change_area}
use blackbox_profiling.FunctimeModule.Modifier.Pages.{walk_pages_select, noncached_pte}

-- A log without the lines of L1.
abbrev pub beyond_l1 : List Action → List Action
beyond_l1 [] = []
beyond_l1 (clean_l1 a ∷ as') = beyond_l1 as'
beyond_l1 (clean_l2 a ∷ as') = clean_l2 a ∷ beyond_l1 as'
beyond_l1 (set_pte a v ∷ as') = set_pte a v ∷ beyond_l1 as'
beyond_l1 (flush_tlb a ∷ as') = flush_tlb a ∷ beyond_l1 as'

beyond_l1-append : (xs ys : List Action) → beyond_l1 (xs ++ ys) ≡ beyond_l1 xs ++ beyond_l1 ys
beyond_l1-append [] ys = refl
beyond_l1-append (clean_l1 a ∷ xs) ys = beyond_l1-append xs ys
beyond_l1-append (clean_l2 a ∷ xs) ys = ap (λ l. clean_l2 a ∷ l) (beyond_l1-append xs ys)
beyond_l1-append (set_pte a v ∷ xs) ys = ap (λ l. set_pte a v ∷ l) (beyond_l1-append xs ys)
beyond_l1-append (flush_tlb a ∷ xs) ys = ap (λ l. flush_tlb a ∷ l) (beyond_l1-append xs ys)

beyond_l1-lines : (ls : List ℕ) → beyond_l1 (map clean_l1 ls) ≡ []
beyond_l1-lines [] = refl
beyond_l1-lines (l ∷ ls) = beyond_l1-lines ls

beyond_l1-l1_actions : (va : ℕ) → beyond_l1 (l1_actions va) ≡ []
unfolding l1_actions
beyond_l1-l1_actions va = beyond_l1-lines (lines_from 128 (va % word))

-- Two walks that differ in the lines of L1 only.
pub record Alike (w u : Walk) : Type 0 where
  pub same_area : w.area ≡ u.area
  pub same_ptes : w.ptes ≡ u.ptes
  pub same_log : beyond_l1 w.log ≡ beyond_l1 u.log

-- What both of two steps give is alike.
abbrev pub BothAlike : Option Walk → Option Walk → Type 0
BothAlike o q = (w : Walk) × (u : Walk) × (o ≡ some w) × (q ≡ some u) × Alike w u

module _ (arch : Arch) where
  -- What follows the lines of L1.
  behind_l1 : ℕ → ℕ → ℕ → List Action
  behind_l1 addr prot pte =
      l2_actions (arch.page_to_phys (arch.pte_page pte))
      ++ (set_pte addr (arch.pfn_pte (arch.pte_pfn pte) prot) ∷ flush_tlb addr ∷ [])

  -- A page made noncacheable, with L1 cleaned at `va`.
  pub cleaned_at : ℕ → ℕ → Walk → Walk
  unfolding behind_l1
  cleaned_at va addr w =
      let prot = arch.pgprot_noncached w.area.vm_page_prot in
      record {
        area = record w.area { vm_page_prot = prot };
        ptes = update w.ptes addr (arch.pfn_pte (arch.pte_pfn (w.ptes addr)) prot);
        log = w.log ++ (l1_actions va ++ behind_l1 addr prot (w.ptes addr));
      }

  pub remap_user_lem :
      (addr : ℕ) (w : Walk) → remap_user arch addr w ≡ some (cleaned_at addr addr w)
  unfolding remap_user cleaned_at behind_l1
  remap_user_lem addr w = rw (invalidate_page_l1_lem, invalidate_page_l2_lem)

  pub cleaned_at-ptes :
      (addr c : ℕ) (w : Walk)
      → (cleaned_at addr addr w).ptes c
        ≡ (if c == addr then noncached_pte arch w.area.vm_page_prot (w.ptes addr) else w.ptes c)
  unfolding cleaned_at
  cleaned_at-ptes addr c w = refl

  remap-cleaned_at :
      (addr : ℕ) (w : Walk)
      → remap arch addr w ≡ some (cleaned_at (arch.kmap (arch.pte_page (w.ptes addr))) addr w)
  unfolding remap cleaned_at behind_l1
  remap-cleaned_at addr w = rw (invalidate_page_l1_lem, invalidate_page_l2_lem)

  beyond_l1-cleaned_at :
      (va addr : ℕ) (w : Walk)
      → beyond_l1 (cleaned_at va addr w).log
        ≡ beyond_l1 w.log
          ++ beyond_l1 (behind_l1 addr (arch.pgprot_noncached w.area.vm_page_prot) (w.ptes addr))
  unfolding cleaned_at
  beyond_l1-cleaned_at va addr w = simp (beyond_l1-append, beyond_l1-l1_actions)

  cleaned_at-Alike :
      (va vb addr : ℕ) (w u : Walk)
      → Alike w u
      → Alike (cleaned_at va addr w) (cleaned_at vb addr u)
  unfolding cleaned_at
  cleaned_at-Alike va vb addr w u a = record {
    same_area =
        ap (λ (v : Vma). record v { vm_page_prot = arch.pgprot_noncached v.vm_page_prot })
          a.same_area;
    same_ptes = λ i. update (a.same_ptes i) addr (
        arch.pfn_pte (arch.pte_pfn (a.same_ptes i addr))
          (arch.pgprot_noncached (a.same_area i).vm_page_prot));
    same_log =
        beyond_l1-cleaned_at va addr w
        ∙ (λ i.
            a.same_log i
            ++ beyond_l1 (
                behind_l1 addr (arch.pgprot_noncached (a.same_area i).vm_page_prot)
                  (a.same_ptes i addr)))
        ∙ sym (beyond_l1-cleaned_at vb addr u);
  }

  skip_one-print_mem :
      (page_addr addr : ℕ) (w u : Walk)
      → Alike w u
      → BothAlike (skip_one arch page_addr addr w) (print_mem arch false (page_addr ∷ []) addr u)
  unfolding skip_one print_mem skip_page
  skip_one-print_mem page_addr addr w u a = elim (Bool-cases (addr == page_addr)) [
    | inl e ↦ (w, u, rw (e, skip_one) refl, rw (e, print_mem, skip_page) refl, a)
    | inr e ↦ (
      cleaned_at addr addr w,
      cleaned_at (arch.kmap (arch.pte_page (u.ptes addr))) addr u,
      rw (e, skip_one) (remap_user_lem addr w),
      rw (e, print_mem, skip_page) (remap-cleaned_at addr u),
      cleaned_at-Alike addr (arch.kmap (arch.pte_page (u.ptes addr))) addr w u a,
    )
  ]

  walk_range-Alike :
      (page_addr : ℕ) (addrs : List ℕ) (w u : Walk)
      → Alike w u
      → BothAlike
          (walk_range (skip_one arch page_addr) addrs w)
          (walk_range (print_mem arch false (page_addr ∷ [])) addrs u)
  unfolding walk_range
  walk_range-Alike page_addr [] w u a = (w, u, refl, refl, a)
  walk_range-Alike page_addr (addr ∷ addrs) w u a =
      let (w1, u1, e, f, a1) = skip_one-print_mem page_addr addr w u a in
      let (w2, u2, e2, f2, a2) = walk_range-Alike page_addr addrs w1 u1 a1 in
      (w2, u2, rw (e, walk_range) e2, rw (f, walk_range) f2, a2)

  -- The module for all pages but one does to an area what both_multiple.c does to it where it is
  -- sent that page alone with `should_skip` clear, and where the population changes no entry:
  -- neither fails, and the protection, the entries and all actions beyond L1 are the same, in the
  -- same order.
  pub change_others-change_heap :
      (gup : Gup) (p pid : ℕ) (mmap : List Vma) (v : Vma) (ptes : ℕ → ℕ) (log : List Action)
      (ret : Option ℕ) (t : Pop)
      → mm_populate gup mmap true v.vm_start (sub_word v.vm_end v.vm_start) ptes ≡ finished ret t
      → t.ptes ≡ ptes
      → BothAlike (change_others arch p (record { area = v; ptes = ptes; log = log })) (
          change_heap arch gup
            (record { buff = p ∷ []; should_skip = false; pid = pid })
            mmap
            v
            ptes
            log)
  unfolding change_others change_heap
  change_others-change_heap gup p pid mmap v ptes log ret t populated same =
      let w : Walk = record { area = v; ptes = ptes; log = log } in
      let u : Walk = record { area = v; ptes = t.ptes; log = log } in
      let a : Alike w u = record { same_area = refl; same_ptes = sym same; same_log = refl } in
      let (w', u', e, f, a') =
        walk_range-Alike (page_address v.vm_start p)
          (arch.pte_walk v.vm_start (sub_word v.vm_end v.vm_start)) w u a in
      (w', u', e, rw (populated, change_heap) f, a')

  -- The module for one page, where that page lies in the area, leaves the entry of every page as
  -- both_multiple.c does where it is sent that page alone with `should_skip` set, and where the
  -- population changes no entry and the page can be reached; neither fails.
  pub change_page-change_heap :
      (laws : ArchLaws arch) (gup : Gup) (p pid : ℕ) (mmap : List Vma) (v : Vma) (ptes : ℕ → ℕ)
      (log : List Action) (ret : Option ℕ) (t : Pop) (backed : ℕ → Bool) (b : ℕ)
      → backed (page_address v.vm_start p) ≡ true
      → elem (page_address v.vm_start p) (arch.pte_walk v.vm_start (sub_word v.vm_end v.vm_start))
        ≡ true
      → mm_populate gup mmap true v.vm_start (sub_word v.vm_end v.vm_start) ptes ≡ finished ret t
      → t.ptes ≡ ptes
      → (w : Walk) × (u : Walk) × (change_page arch backed p
            (record { area = v; ptes = ptes; log = log })
          ≡ some w)
        × (change_heap arch gup
              (record { buff = p ∷ []; should_skip = true; pid = pid })
              mmap
              v
              ptes
              log
            ≡ some u)
        × (w.ptes b ≡ u.ptes b)
  unfolding change_page cleaned_at change_area
  change_page-change_heap laws gup p pid mmap v ptes log ret t backed b reached inside populated
        same =
      let a = page_address v.vm_start p in
      let addrs = arch.pte_walk v.vm_start (sub_word v.vm_end v.vm_start) in
      let w : Walk = record { area = v; ptes = ptes; log = log } in
      let u : Walk = record { area = v; ptes = t.ptes; log = log } in
      let (u', e, entries, _) = walk_pages_select arch laws true (a ∷ []) addrs u b in
      (
        cleaned_at a a w,
        u',
        rw (reached, change_page) (remap_user_lem a w),
        change_heap-eq-change_area arch gup
              (record { buff = p ∷ []; should_skip = true; pid = pid }) mmap v ptes log
            ∙ rw (populated, change_area) e,
        ground (arith, entries, inside, ap (λ f. f b) same, ap (λ f. f a) same),
      )
