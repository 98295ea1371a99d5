-- ===== src/BothMultiple/Agrees.antt =====
-- The two modules change an area alike.
use blackbox_profiling.Base.{
  ℕ, ◌≡◌, refl, ◌↔◌, ◌⊎◌, Bool, none, some, List, Option-cases, inl, inr, arith,
}
use blackbox_profiling.Linux.{Arch, Action, Gup, Vma, Task}
use blackbox_profiling.BothMultiple.{print_mem, heap_proc_write, HeapRequest, change_heap, HeapCopy}
use blackbox_profiling.FunctimeModule.Modifier.{cacheability_modifier}
use blackbox_profiling.FunctimeModule.Write.{efault}
use blackbox_profiling.FunctimeModule.Finder.{change_area}

-- Where both are sent the same pages and the same choice, `both_multiple.c` does to the heap what
-- `functime_kernel_module.c` does to that area: the same entries, the same protection and the same
-- actions in the same order, or a fault in both.
pub change_heap-eq-change_area :
    (arch : Arch) (gup : Gup) (cp : HeapRequest) (mmap : List Vma) (v : Vma) (ptes : ℕ → ℕ)
    (log : List Action)
    → change_heap arch gup cp mmap v ptes log
      ≡ change_area arch gup cp.should_skip cp.buff mmap v ptes log
unfolding change_heap change_area print_mem cacheability_modifier
change_heap-eq-change_area arch gup cp mmap v ptes log = refl

-- What makes a write fail.
abbrev pub CopyFails : HeapCopy → Type 0
CopyFails u =
    (u.params ≡ none)
    ⊎ ((size : ℕ) × (should_skip : Bool) × (pid : ℕ) × (u.params ≡ some (size, should_skip, pid))
        × (u.buff size ≡ none))

-- A write returns -EFAULT exactly if one of its two copies fails.
pub heap_proc_write_efault :
    (arch : Arch) (gup : Gup) (u : HeapCopy) (ts : List Task) (log : List Action)
    → (heap_proc_write arch gup u ts log ≡ efault) ↔ CopyFails u
unfolding heap_proc_write
heap_proc_write_efault arch gup u ts log = elim (Option-cases u.params) [
  | inl e ↦ (λ _. inl e, λ _. ground arith)
  | inr ((size, b, pid), e) ↦ elim (Option-cases (u.buff size)) [
    | inl f ↦ (λ _. inr (size, b, pid, e, f), λ _. ground arith)
    | inr (buff, f) ↦ (
      λ h. absurd (ground arith),
      λ h. elim h [
        | inl n ↦ absurd (ground arith)
        | inr (size', b', pid', e', f') ↦ absurd (ground arith)
      ],
    )
  ]
]
