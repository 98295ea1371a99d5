-- ===== src/FunctimeModule/Finder/Index.antt =====
-- Which areas the indices choose.
use blackbox_profiling.Base.{
  found, missed, in_range, length, set, get_elem?, ℕ, zero, suc, ◌+◌, ◌≤◌, ◌<◌, ◌≡◌, refl, some,
  some-injective, List, [], ◌∷◌, arith, ◌==◌, Bool-cases, Option-cases, sym, subst, inl, inr, Bool,
}
use blackbox_profiling.Linux.{Arch, Action, Vma, Gup, Mm}
use blackbox_profiling.FunctimeModule.Modifier.{Walk}
use blackbox_profiling.FunctimeModule.Finder.{
  Params, VmasParams, find_areas, change_area, vma_finder, Found, finder_from,
}

module _ (arch : Arch) (gup : Gup) (should_skip : Bool) (page_addr : List ℕ) (mmap : List Vma)
    (map_count : ℕ) where
  -- One index chooses the area that stands there.
  find_areas-one :
      (count i : ℕ) (p : VmasParams) (vs : List Vma) (v : Vma) (ptes : ℕ → ℕ) (log : List Action)
      (w : Walk)
      → p.vma_index ≡ count + i
      → get_elem? vs i ≡ some v
      → count + length vs ≤ map_count
      → change_area arch gup should_skip page_addr mmap v ptes log ≡ some w
      → find_areas arch gup should_skip page_addr mmap map_count count (p ∷ []) vs ptes log
        ≡ some (record { areas = set vs i w.area; ptes = w.ptes; log = w.log })
  unfolding find_areas
  find_areas-one count i p [] v ptes log w e g l c = cc
  find_areas-one count zero p (u ∷ vs) v ptes log w e g l c =
      let c' : change_area arch gup should_skip page_addr mmap u ptes log ≡ some w =
        subst (λ x. change_area arch gup should_skip page_addr mmap x ptes log ≡ some w)
          (sym (some-injective u v g)) c in
      rw (
        in_range count (length vs) map_count l,
        found count p.vma_index (omega arith),
        c',
        find_areas,
      )
  find_areas-one count (suc i) p (u ∷ vs) v ptes log w e g l c = rw (
    in_range count (length vs) map_count l,
    missed count p.vma_index (omega arith),
    find_areas-one (count + 1) i p vs v ptes log w (omega arith) g (omega arith) c,
    find_areas,
  )

  -- An index that has been passed ends the search.
  find_areas-stale :
      (count : ℕ) (p : VmasParams) (ps : List VmasParams) (vs : List Vma) (ptes : ℕ → ℕ)
      (log : List Action)
      → p.vma_index < count
      → count + length vs ≡ map_count
      → find_areas arch gup should_skip page_addr mmap map_count count (p ∷ ps) vs ptes log
        ≡ some (record { areas = vs; ptes = ptes; log = log })
  unfolding find_areas
  find_areas-stale count p ps [] ptes log h l = ground arith
  find_areas-stale count p ps (u ∷ vs) ptes log h l = rw (
    in_range count (length vs) map_count (omega arith),
    missed count p.vma_index (omega arith),
    find_areas-stale (count + 1) p ps vs ptes log (omega arith) (omega arith),
    find_areas,
  )

  find_areas-drop :
      (count : ℕ) (p q : VmasParams) (qs : List VmasParams) (vs : List Vma) (ptes : ℕ → ℕ)
      (log : List Action)
      → q.vma_index ≤ p.vma_index
      → count + length vs ≡ map_count
      → find_areas arch gup should_skip page_addr mmap map_count count (p ∷ q ∷ qs) vs ptes log
        ≡ find_areas arch gup should_skip page_addr mmap map_count count (p ∷ []) vs ptes log
  unfolding find_areas
  find_areas-drop count p q qs [] ptes log h l = refl
  find_areas-drop count p q qs (u ∷ vs) ptes log h l = elim (Bool-cases (count == p.vma_index)) [
    | inl e ↦
        rw (in_range count (length vs) map_count (omega arith), e, find_areas)
          (elim (Option-cases (change_area arch gup should_skip page_addr mmap u ptes log)) [
            | inl f ↦ rw f
            | inr (w, f) ↦
                rw (
                  f,
                  find_areas-stale (count + 1) q qs vs w.ptes w.log (ground arith) (omega arith),
                )
          ])
    | inr e ↦ rw (
      in_range count (length vs) map_count (omega arith),
      e,
      find_areas-drop (count + 1) p q qs vs ptes log h (omega arith),
      find_areas,
    )
  ]

finder_from-some :
    (arch : Arch) (gup : Gup) (cp : Params) (mm : Mm) (log : List Action) (vs : List Vma) (i : ℕ)
    (v : Vma) (f : Found)
    → get_elem? vs i ≡ some v
    → find_areas arch gup cp.should_skip cp.page_addr mm.mmap mm.map_count 0 cp.vma_param mm.mmap
        mm.ptes log
      ≡ some f
    → finder_from arch gup cp vs mm log ≡ some (record mm { mmap = f.areas; ptes = f.ptes }, f.log)
unfolding finder_from
finder_from-some arch gup cp mm log [] i v f at h = cc
finder_from-some arch gup cp mm log (u ∷ vs) i v f at h = rw h

finder_from-eq :
    (arch : Arch) (gup : Gup) (cp cq : Params) (mm : Mm) (log : List Action) (vs : List Vma)
    → find_areas arch gup cp.should_skip cp.page_addr mm.mmap mm.map_count 0 cp.vma_param mm.mmap
        mm.ptes log
      ≡ find_areas arch gup cq.should_skip cq.page_addr mm.mmap mm.map_count 0 cq.vma_param mm.mmap
          mm.ptes log
    → finder_from arch gup cp vs mm log ≡ finder_from arch gup cq vs mm log
unfolding finder_from
finder_from-eq arch gup cp cq mm log [] h = refl
finder_from-eq arch gup cp cq mm log (u ∷ vs) h = rw h

-- Linux keeps `map_count` as the number of the areas. Where one index is given and an area stands
-- there whose change succeeds, that area is changed and no other.
pub vma_finder_one :
    (arch : Arch) (gup : Gup) (cp : Params) (mm : Mm) (log : List Action) (p : VmasParams) (v : Vma)
    (w : Walk)
    → mm.map_count ≡ length mm.mmap
    → cp.vma_param ≡ p ∷ []
    → get_elem? mm.mmap p.vma_index ≡ some v
    → change_area arch gup cp.should_skip cp.page_addr mm.mmap v mm.ptes log ≡ some w
    → vma_finder arch gup cp mm log
      ≡ some (record mm { mmap = set mm.mmap p.vma_index w.area; ptes = w.ptes }, w.log)
unfolding vma_finder
vma_finder_one arch gup cp mm log p v w count one at changed =
    finder_from-some arch gup cp mm log mm.mmap p.vma_index v
      (record { areas = set mm.mmap p.vma_index w.area; ptes = w.ptes; log = w.log }) at
      (rw one (
        find_areas-one arch gup cp.should_skip cp.page_addr mm.mmap mm.map_count 0 p.vma_index p
          mm.mmap v mm.ptes log w (omega arith) at (omega arith) changed))

-- An index that is not above the one before it has no effect, and neither has any index behind it.
pub vma_finder_drop :
    (arch : Arch) (gup : Gup) (cp : Params) (mm : Mm) (log : List Action) (p q : VmasParams)
    (qs : List VmasParams)
    → mm.map_count ≡ length mm.mmap
    → cp.vma_param ≡ p ∷ q ∷ qs
    → q.vma_index ≤ p.vma_index
    → vma_finder arch gup cp mm log ≡ vma_finder arch gup (record cp { vma_param = p ∷ [] }) mm log
unfolding vma_finder
vma_finder_drop arch gup cp mm log p q qs count two le =
    finder_from-eq arch gup cp (record cp { vma_param = p ∷ [] }) mm log mm.mmap
      (rw two (
        find_areas-drop arch gup cp.should_skip cp.page_addr mm.mmap mm.map_count 0 p q qs mm.mmap
          mm.ptes log le (omega arith)))
