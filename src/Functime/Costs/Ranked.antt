-- ===== src/Functime/Costs/Ranked.antt =====
-- The ranking between the two modes.
use mathlib.Core.List.Permᴰ
use mathlib.Core.Logic.{∥∥₁_elim}
use native.Mathlib.Bridge.{le_prop}
use mathlib.Core.List.{exists_of_mem-map, Pairwise, Permᴰ, Mem, mem-cons_self, mem-cons_of_mem}
use blackbox_profiling.Base.{
  ℕ, range_from, ◌≤◌, ◌<◌, List, [], ◌∷◌, map, arith, subst, ◌≡◌, refl, ap,
}
use blackbox_profiling.Functime.Profile.{cmpfunc, int_min, PageStats}
use blackbox_profiling.Functime.Costs.{page_of, costs_of}
use blackbox_profiling.Functime.Profile.Pages.{numbers}

-- Where the comparison is positive as an `int`, `a` is greater than `b`.
abbrev pub NotAfter : PageStats → PageStats → Type 0
NotAfter a b = 0 < cmpfunc a b → int_min ≤ cmpfunc a b

-- What the manual of qsort says of the array it is called on: the entries are kept, and none stands
-- before one that it is greater than.
abbrev pub SortsAt : (List PageStats → List PageStats) → List PageStats → Type 0
SortsAt qsort page = Permᴰ (qsort page) page × Pairwise NotAfter (qsort page)

-- The averages are `int`s that are not negative.
abbrev pub InRange : List PageStats → Type 0
InRange page = (p : PageStats) → Mem p page → p.cycles < int_min

abbrev pub NotDearer : PageStats → PageStats → Type 0
NotDearer a b = a.cycles ≤ b.cycles

NotAfter-NotDearer :
    (a b : PageStats) → a.cycles < int_min → b.cycles < int_min → NotAfter a b → NotDearer a b
unfolding cmpfunc
NotAfter-NotDearer a b ha hb h = ground arith

ranked : (l : List PageStats) → InRange l → Pairwise NotAfter l → Pairwise NotDearer l
ranked [] small Pairwise.nil = Pairwise.nil
ranked (a ∷ l) small (Pairwise.cons h p) =
    Pairwise.cons
      (λ b m.
        NotAfter-NotDearer a b (small a mem-cons_self) (small b (mem-cons_of_mem a m)) (h b m))
      (ranked l (λ q m. small q (mem-cons_of_mem a m)) p)

page_of-InRange :
    (f : List ℕ → ℕ) (is : List ℕ) → ((ps : List ℕ) → f ps < int_min) → InRange (map (page_of f) is)
page_of-InRange f is cheap p m =
    ∥∥₁_elim (exists_of_mem-map m) le_prop
      (λ t. subst (λ (q : PageStats). q.cycles < int_min) t.2 (cheap (t.0 ∷ [])))

numbers-page_of : (f : List ℕ → ℕ) (is : List ℕ) → numbers (map (page_of f) is) ≡ is
numbers-page_of f [] = refl
numbers-page_of f (i ∷ is) = ap (λ rest. i ∷ rest) (numbers-page_of f is)

-- Each page number is ranked once.
pub ranked_numbers :
    (qsort : List PageStats → List PageStats) (f : List ℕ → ℕ) (n : ℕ)
    → SortsAt qsort (costs_of f n)
    → Permᴰ (numbers (qsort (costs_of f n))) (range_from 0 n)
ranked_numbers qsort f n sorts =
    subst (λ is. Permᴰ (numbers (qsort (costs_of f n))) is) (numbers-page_of f (range_from 0 n))
      (Permᴰ.map (λ (p : PageStats). p.page_number) sorts.0)

-- No page stands before a cheaper one.
pub ranked_order :
    (qsort : List PageStats → List PageStats) (f : List ℕ → ℕ) (n : ℕ)
    → SortsAt qsort (costs_of f n)
    → ((ps : List ℕ) → f ps < int_min)
    → Pairwise NotDearer (qsort (costs_of f n))
ranked_order qsort f n sorts cheap =
    ranked (qsort (costs_of f n))
      (λ q m. page_of-InRange f (range_from 0 n) cheap q (Permᴰ.mem sorts.0 m)) sorts.1
