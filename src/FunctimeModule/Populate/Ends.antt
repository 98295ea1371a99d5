-- ===== src/FunctimeModule/Populate/Ends.antt =====
-- The loop of __mm_populate_mod ends, and no assertion of populate_vma_page_range fails.
use Prim.Native.Nat.{min}
use blackbox_profiling.Base.{
  ℕ, ◌%◌, ◌≤◌, ◌≡◌, refl, arith, ◌⊎◌, inl, inr, true, List, [], ◌∷◌, Bool-cases, leb, page_size,
  add_word, mul_word, word, ◌+◌, ◌*◌, ◌<◌, Bool, false, Option, none, some, ltb, if◌then◌else◌,
  sub_word, ◌/◌, ◌||◌, zero, suc, ◌-◌, ltb→lt, ◌==◌,
}
use blackbox_profiling.Linux.{Vma, GupRet, pages, failed, AreasFrom, EndsAfter, Gup, GupLaws}
use blackbox_profiling.FunctimeModule.Populate.{
  Pop, next_area, advance, after_fault, finished, Populated, gup_flags, round,
  populate_vma_page_range, populate_loop, visit_area, mm_populate,
}

-- Where the lock is held, the loop stands at or before the end of its area.
abbrev Held : ℕ → List Vma → Type 0
Held a [] = Unit {0}
Held a (v ∷ vs) = AreasFrom 0 (v ∷ vs) × (a ≤ v.vm_end)

record Inv (s : Pop) : Type 0 where
  aligned : s.nstart % page_size ≡ 0
  held : s.locked ≡ true → Held s.nstart s.vma

AreasFrom-zero : (low : ℕ) (vs : List Vma) → AreasFrom low vs → AreasFrom 0 vs
AreasFrom-zero low [] h = tt
AreasFrom-zero low (v ∷ vs) h = (omega arith, h.1, h.2, h.3, h.4, h.5)

EndsAfter-start : (a low : ℕ) (vs : List Vma) → a ≤ low → AreasFrom low vs → EndsAfter a vs
EndsAfter-start a low [] h k = tt
EndsAfter-start a low (v ∷ vs) h k = omega arith

-- The area of a round ends behind the place where the loop stands.
abbrev Ready : ℕ → List Vma → Type 0
Ready a vs = AreasFrom 0 vs × EndsAfter a vs

advance-Ready : (a : ℕ) (vs : List Vma) → Held a vs → Ready a (advance a vs)
advance-Ready a [] h = (tt, tt)
advance-Ready a (v ∷ vs) h = elim (Bool-cases (leb v.vm_end a)) [
  | inl e ↦
      rw e (AreasFrom-zero v.vm_end vs h.0.5, EndsAfter-start a v.vm_end vs (ground arith) h.0.5)
  | inr e ↦ rw e (h.0, ground arith)
]

GupRet-cases : (r : GupRet) → ((n : ℕ) × (r ≡ pages n)) ⊎ ((e : ℕ) × (r ≡ failed e))
GupRet-cases (pages n) = inl (n, refl)
GupRet-cases (failed e) = inr (e, refl)

aligned_test : (a : ℕ) → a % page_size ≡ 0 → (a % page_size == 0) ≡ true
aligned_test a h = ground arith

-- How a call that ignores errors, or does not, may end: it returns, and with 0 if it ignores
-- errors.
abbrev Returns : Bool → Populated → Type 0
Returns ignore r = (o : Option ℕ) × (t : Pop) × (r ≡ finished o t) × ((o ≡ none) ⊎ (ignore ≡ false))

module _ (g : Gup) (laws : GupLaws g) (mmap : List Vma) (areas : AreasFrom 0 mmap) (ignore : Bool)
    (end : ℕ) (fits : end < word) (whole : end % page_size ≡ 0) where
  next_area-Ready : (s : Pop) → Inv s → Ready s.nstart (next_area g mmap s)
  next_area-Ready s h = elim (Bool-cases s.locked) [
    | inl e ↦ rw e (advance-Ready s.nstart s.vma (h.held e))
    | inr e ↦
        rw e (laws.find_vma-AreasFrom mmap s.nstart areas, laws.find_vma-EndsAfter mmap s.nstart)
  ]

  -- A round behind which the loop returns from every later place returns.
  abbrev Continues : ℕ → (Pop → Populated) → Type 0
  Continues from continue =
      (t : Pop) → Inv t → from + page_size ≤ t.nstart → Returns ignore (continue t)

  after_fault-Returns :
      (v : Vma) (vs : List Vma) (from nstart nend : ℕ) (t : Pop) (continue : Pop → Populated)
      (r : GupRet)
      → AreasFrom 0 (v ∷ vs)
      → t.vma ≡ v ∷ vs
      → nstart % page_size ≡ 0
      → nend % page_size ≡ 0
      → from ≤ nstart
      → nstart < nend
      → nend ≤ v.vm_end
      → ((n : ℕ) → r ≡ pages n → (0 < n) × (nstart + n * page_size ≤ nend))
      → Continues from continue
      → Returns ignore (after_fault g mmap ignore end nstart nend t continue r)
  unfolding after_fault
  after_fault-Returns v vs from nstart nend t continue (pages n) a tv sa ea ge lt le bound c =
      let (some_page, fit) = bound n refl in
      c (record t { nstart = add_word nstart (mul_word n page_size) })
        (record { aligned = omega arith; held = λ _. rw tv (a, omega arith) }) (omega arith)
  after_fault-Returns v vs from nstart nend t continue (failed e) a tv sa ea ge lt le bound c =
      elim (Bool-cases ignore) [
        | inl i ↦ rw i (
            rw i at (
              c (record t { nstart = nend }) (record { aligned = ea; held = λ _. rw tv (a, le) })
                (omega arith)))
        | inr i ↦ rw i (some e, record t { nstart = nstart }, refl, inr refl)
      ]

  abbrev here : Vma → List Vma → Pop → Pop
  here v vs s = record s { locked = true; vma = v ∷ vs }

  -- Where the round begins to fault in pages.
  abbrev from_area : Vma → Pop → ℕ
  from_area v s = if ltb s.nstart v.vm_start then v.vm_start else s.nstart

  touched-Returns :
      (v : Vma) (vs : List Vma) (s : Pop) (continue : Pop → Populated)
      → s.nstart % page_size ≡ 0
      → AreasFrom 0 (v ∷ vs)
      → s.nstart < v.vm_end
      → s.nstart < end
      → v.vm_start < end
      → Continues s.nstart continue
      → let f =
          g.get_user_pages
            (from_area v s)
            (sub_word (min end v.vm_end) (from_area v s) / page_size)
            (gup_flags v)
            s.ptes in
        Returns ignore (
          after_fault g mmap ignore end
            (from_area v s)
            (min end v.vm_end)
            (record (here v vs s) { locked = f.locked; ptes = f.ptes })
            continue
            f.ret)
  touched-Returns v vs s continue sa a lt le st c =
      after_fault-Returns v vs s.nstart (from_area v s) (min end v.vm_end) _ continue _ a refl
        (ground arith) (ground arith) (ground arith) (ground arith) (omega arith)
        (λ n e. ((progress n e).0, ground (arith, progress n e))) c
    where
      progress :
          (n : ℕ)
          → (g.get_user_pages
              (from_area v s)
              (sub_word (min end v.vm_end) (from_area v s) / page_size)
              (gup_flags v)
              s.ptes).ret
            ≡ pages n
          → (0 < n) × (n ≤ sub_word (min end v.vm_end) (from_area v s) / page_size)
      progress n e = laws.gup_progress _ _ n _ _ (ground arith) e

  populate_ok :
      (v : Vma) (vs : List Vma) (s : Pop)
      → s.nstart % page_size ≡ 0
      → AreasFrom 0 (v ∷ vs)
      → s.nstart < v.vm_end
      → s.nstart < end
      → v.vm_start < end
      → populate_vma_page_range g v (from_area v s) (min end v.vm_end) true s.ptes
        ≡ some (
            g.get_user_pages
              (from_area v s)
              (sub_word (min end v.vm_end) (from_area v s) / page_size)
              (gup_flags v)
              s.ptes)
  unfolding populate_vma_page_range
  populate_ok v vs s sa a lt le st = ground arith

  round-Returns :
      (v : Vma) (vs : List Vma) (s : Pop) (continue : Pop → Populated)
      → s.nstart % page_size ≡ 0
      → AreasFrom 0 (v ∷ vs)
      → s.nstart < v.vm_end
      → s.nstart < end
      → v.vm_start < end
      → Continues s.nstart continue
      → Returns ignore (round g mmap ignore end v vs s continue)
  unfolding round
  round-Returns v vs s continue sa a lt le st c =
      elim (Bool-cases (v.vm_flags.io || v.vm_flags.pfnmap)) [
        | inl e ↦ rw e (
            c (record (here v vs s) { nstart = min end v.vm_end })
              (record { aligned = ground arith; held = λ _. (a, omega arith) }) (omega arith))
        | inr e ↦ rw e (
            rw (populate_ok v vs s sa a lt le st) (touched-Returns v vs s continue sa a lt le st c))
      ]

  visit_area-Returns :
      (vs : List Vma) (s : Pop) (continue : Pop → Populated)
      → s.nstart % page_size ≡ 0
      → Ready s.nstart vs
      → s.nstart < end
      → Continues s.nstart continue
      → Returns ignore (visit_area g mmap ignore end vs s continue)
  unfolding visit_area
  visit_area-Returns [] s continue sa r lt c =
      (none, record s { locked = true; vma = [] }, refl, inl refl)
  visit_area-Returns (v ∷ vs) s continue sa r lt c = elim (Bool-cases (leb end v.vm_start)) [
    | inl e ↦ rw e (none, record s { locked = true; vma = v ∷ vs }, refl, inl refl)
    | inr e ↦ rw e (round-Returns v vs s continue sa r.0 r.1 lt (ground arith) c)
  ]

  populate_loop-Returns :
      (fuel : ℕ) (s : Pop)
      → Inv s
      → end - s.nstart < fuel * page_size
      → Returns ignore (populate_loop g mmap ignore end fuel s)
  unfolding populate_loop
  populate_loop-Returns zero s h m = absurd (omega arith)
  populate_loop-Returns (suc fuel) s h m = elim (Bool-cases (ltb s.nstart end)) [
    | inl e ↦ rw e (
        visit_area-Returns (next_area g mmap s) s (populate_loop g mmap ignore end fuel) h.aligned
          (next_area-Ready s h) (ground arith)
          (λ t ht le. populate_loop-Returns fuel t ht (omega (arith, ltb→lt s.nstart end e))))
    | inr e ↦ rw e (none, s, refl, inl refl)
  ]

-- For a range of whole pages that ends below the end of the address space, in a process whose areas
-- are whole pages in order, `__mm_populate_mod` returns: the fuel suffices and no assertion of it
-- or of `populate_vma_page_range` fails. Where it ignores errors it returns 0.
pub mm_populate_returns :
    (g : Gup) (laws : GupLaws g) (mmap : List Vma) (ignore : Bool) (start len : ℕ) (ptes : ℕ → ℕ)
    → AreasFrom 0 mmap
    → start % page_size ≡ 0
    → len % page_size ≡ 0
    → start + len < word
    → (o : Option ℕ) × (t : Pop) × (mm_populate g mmap ignore start len ptes ≡ finished o t)
      × ((o ≡ none) ⊎ (ignore ≡ false))
unfolding mm_populate
mm_populate_returns g laws mmap ignore start len ptes areas sa la fit =
    rw (aligned_test start sa, aligned_test len la)
      (populate_loop-Returns g laws mmap areas ignore (add_word start len) (omega arith)
        (omega arith) (len / page_size + 1)
        (record { locked = false; vma = []; nstart = start; ptes = ptes })
        (record { aligned = sa; held = λ e. cc }) (omega arith))
