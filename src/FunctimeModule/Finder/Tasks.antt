-- ===== src/FunctimeModule/Finder/Tasks.antt =====
-- Which processes a request reaches.
use blackbox_profiling.Base.{
  Bool-cases, Option-cases, ==_iff, ◌==◌, length, get_elem?, ℕ, zero, suc, ◌≡◌, refl, ap, ◌≢◌, ◌⊎◌,
  inl, inr, some, List, [], ◌∷◌, arith,
}
use blackbox_profiling.Linux.{Arch, Task, Action, Gup}
use blackbox_profiling.FunctimeModule.Finder.{Params, vma_finder, get_vma}

module _ (arch : Arch) (gup : Gup) (cp : Params) where
  -- One step of the search, in a run that succeeds.
  get_vma-cons :
      (u : Task) (ts ts' : List Task) (log log' : List Action)
      → get_vma arch gup cp (u ∷ ts) log ≡ some (ts', log')
      → (u' : Task) × (rest : List Task) × (log1 : List Action) × (get_vma arch gup cp ts log1
          ≡ some (rest, log'))
        × (ts' ≡ u' ∷ rest)
        × (u'.pid ≡ u.pid)
        × ((u.pid ≡ cp.pid) ⊎ (u' ≡ u))
  unfolding get_vma
  get_vma-cons u ts ts' log log' h = elim (Bool-cases (u.pid == cp.pid)) [
    | inr e ↦ elim (Option-cases (get_vma arch gup cp ts log)) [
      | inl f ↦ absurd (ground arith)
      | inr (r, f) ↦ (u, r.0, log, ground arith, ground arith, refl, inr refl)
    ]
    | inl e ↦ elim (Option-cases u.mm) [
      | inl f ↦ absurd (ground arith)
      | inr (m, f) ↦ elim (Option-cases (vma_finder arch gup cp m log)) [
        | inl g ↦ absurd (ground arith)
        | inr (m', g) ↦ elim (Option-cases (get_vma arch gup cp ts m'.1)) [
          | inl k ↦ absurd (ground arith)
          | inr (r, k) ↦ (
            record u { mm = some m'.0 },
            r.0,
            m'.1,
            ground arith,
            ground arith,
            refl,
            inl ((==_iff u.pid cp.pid).0 e),
          )
        ]
      ]
    ]
  ]

  length-get_vma :
      (ts ts' : List Task) (log log' : List Action)
      → get_vma arch gup cp ts log ≡ some (ts', log')
      → length ts' ≡ length ts
  unfolding get_vma
  length-get_vma [] ts' log log' h = ground arith
  length-get_vma (u ∷ ts) ts' log log' h =
      let (u', rest, log1, k, e, _, _) = get_vma-cons u ts ts' log log' h in
      rw e (ap suc (length-get_vma ts rest log1 log' k))

  -- A request that succeeds keeps the order and the number of the tasks, and a task with another
  -- pid is as it was.
  pub get_vma_others :
      (ts ts' : List Task) (log log' : List Action) (i : ℕ) (t : Task)
      → get_vma arch gup cp ts log ≡ some (ts', log')
      → get_elem? ts i ≡ some t
      → t.pid ≢ cp.pid
      → (get_elem? ts' i ≡ some t) × (length ts' ≡ length ts)
  get_vma_others [] ts' log log' i t h at other = cc
  get_vma_others (u ∷ ts) ts' log log' zero t h at other =
      let (u', rest, log1, k, e, _, same) = get_vma-cons u ts ts' log log' h in
      (ground arith, length-get_vma (u ∷ ts) ts' log log' h)
  get_vma_others (u ∷ ts) ts' log log' (suc i) t h at other =
      let (u', rest, log1, k, e, _, same) = get_vma-cons u ts ts' log log' h in
      (
        rw e (get_vma_others ts rest log1 log' i t k at other).0,
        length-get_vma (u ∷ ts) ts' log log' h,
      )
