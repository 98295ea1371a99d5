-- ===== src/FunctimeModule/Finder/Area.antt =====
-- What becomes of the pages of a chosen area.
use blackbox_profiling.Base.{
  elem, word, page_size, ℕ, ◌+◌, ◌*◌, ◌<◌, ◌≡◌, refl, List, [], ◌∷◌, map, arith, if◌then◌else◌, ◌-◌,
  ◌%◌, true, not, ◌&&◌, none, some, Bool-cases, sub_word, ◌≤◌, ◌∙◌, ◌⊎◌, inl, inr, false, Bool,
}
use blackbox_profiling.FunctimeModule.Finder.{page_address, change_area}
use blackbox_profiling.Linux.{Vma, Arch, ArchLaws, AreasFrom, Action, GupLaws, Gup}
use blackbox_profiling.FunctimeModule.Modifier.{Walk}
use blackbox_profiling.FunctimeModule.Populate.{mm_populate, finished, Pop}
use blackbox_profiling.FunctimeModule.Modifier.Pages.{noncached_pte, walk_pages_select}
use blackbox_profiling.FunctimeModule.Populate.Ends.{mm_populate_returns}

abbrev pub AllBelow : ℕ → List ℕ → Type 0
AllBelow n [] = Unit {0}
AllBelow n (x ∷ xs) = (x < n) × AllBelow n xs

-- The k-th page of an area, from 0, is listed where the number k + 1 is.
elem-page_address :
    (start k : ℕ) (ps : List ℕ)
    → AllBelow 1048576 ps
    → start + k * page_size + page_size < word
    → elem (start + k * page_size) (map (page_address start) ps) ≡ elem (k + 1) ps
elem-page_address start k [] b h = refl
elem-page_address start k (p ∷ ps) b h = ground (arith, elem-page_address start k ps b.1 h)

-- An area of whole pages.
pub record IsArea (v : Vma) : Type 0 where
  pub filled : v.vm_start < v.vm_end
  pub fits : v.vm_end < word
  pub start_whole : v.vm_start % page_size ≡ 0
  pub end_whole : v.vm_end % page_size ≡ 0

module _ (arch : Arch) (laws : ArchLaws arch) (gup : Gup) (gup_laws : GupLaws gup)
    (should_skip : Bool) (page_addr : List ℕ) (mmap : List Vma) (areas : AreasFrom 0 mmap) (v : Vma)
    (is_area : IsArea v) (ptes : ℕ → ℕ) (log : List Action) where
  -- The entries once the area has been faulted in, the outcome, and the entry at an address.
  abbrev Changed : ℕ → Type 0
  Changed a =
      (t : Pop) × (w : Walk) × (mm_populate gup mmap true v.vm_start (v.vm_end - v.vm_start) ptes
        ≡ finished none t)
      × (change_area arch gup should_skip page_addr mmap v ptes log ≡ some w)
      × (w.ptes a ≡ (
          if elem a (arch.pte_walk v.vm_start (v.vm_end - v.vm_start))
            && (if elem a (map (page_address v.vm_start) page_addr)
                then should_skip
                else not should_skip)
          then noncached_pte arch v.vm_page_prot (t.ptes a)
          else t.ptes a))
      × (arch.pte_pfn (w.ptes a) ≡ arch.pte_pfn (t.ptes a))

  len_lem : sub_word v.vm_end v.vm_start ≡ v.vm_end - v.vm_start
  len_lem = omega arith

  faulted_in :
      (t : Pop) × (mm_populate gup mmap true v.vm_start (v.vm_end - v.vm_start) ptes
        ≡ finished none t)
  faulted_in =
      let (o, t, e, q) =
        mm_populate_returns gup gup_laws mmap true v.vm_start (v.vm_end - v.vm_start) ptes areas
          is_area.start_whole (omega arith) (omega arith) in
      (t, ground arith)

  not_walked :
      (a : ℕ)
      → (a < v.vm_start) ⊎ (v.vm_end ≤ a)
      → elem a (arch.pte_walk v.vm_start (v.vm_end - v.vm_start)) ≡ false
  not_walked a out = elim (Bool-cases (elem a (arch.pte_walk v.vm_start (v.vm_end - v.vm_start)))) [
    | inl e ↦
        absurd
          (let (k, lt, eq) = laws.walk_only v.vm_start (v.vm_end - v.vm_start) a e in omega arith)
    | inr e ↦ e
  ]

  change_area_lem : (a : ℕ) → Changed a
  unfolding change_area
  change_area_lem a =
      let (t, e) = faulted_in in
      let (w, we, sel, frame) =
        walk_pages_select arch laws should_skip (map (page_address v.vm_start) page_addr)
          (arch.pte_walk v.vm_start (v.vm_end - v.vm_start))
          (record { area = v; ptes = t.ptes; log = log }) a in
      (t, w, e, rw (len_lem, e, len_lem, change_area) we, sel, frame)

  pub change_area_page :
      (k : ℕ)
      → AllBelow 1048576 page_addr
      → k * page_size < v.vm_end - v.vm_start
      → let a = v.vm_start + k * page_size in
        (t : Pop) × (w : Walk) × (mm_populate gup mmap true v.vm_start (v.vm_end - v.vm_start) ptes
          ≡ finished none t)
        × (change_area arch gup should_skip page_addr mmap v ptes log ≡ some w)
        × (w.ptes a ≡ (
            if (if elem (k + 1) page_addr then should_skip else not should_skip)
            then noncached_pte arch v.vm_page_prot (t.ptes a)
            else t.ptes a))
        × (arch.pte_pfn (w.ptes a) ≡ arch.pte_pfn (t.ptes a))
  change_area_page k below inside =
      let a = v.vm_start + k * page_size in
      let (t, w, e, we, sel, frame) = change_area_lem a in
      (
        t,
        w,
        e,
        we,
        ground (
          arith,
          sel,
          laws.walk_in v.vm_start (v.vm_end - v.vm_start) k inside,
          elem-page_address v.vm_start k page_addr below (omega arith),
        ),
        frame,
      )

  -- An entry whose page does not lie in the chosen area is as the population left it.
  pub change_area_outside :
      (a : ℕ)
      → (a < v.vm_start) ⊎ (v.vm_end ≤ a)
      → (t : Pop) × (w : Walk) × (mm_populate gup mmap true v.vm_start (v.vm_end - v.vm_start) ptes
          ≡ finished none t)
        × (change_area arch gup should_skip page_addr mmap v ptes log ≡ some w)
        × (w.ptes a ≡ t.ptes a)
  change_area_outside a out =
      let (t, w, e, we, sel, frame) = change_area_lem a in
      (t, w, e, we, sel ∙ rw (not_walked a out))
