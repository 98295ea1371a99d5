-- ===== src/Mser/Tasks.antt =====
-- The write handler of the module for one page, over all processes.
use blackbox_profiling.Base.{
  ℕ, ◌==◌, if◌then◌else◌, Bool-cases, ◌≡◌, refl, ap, ◌∙◌, inl, inr, Bool, true, false, Option, none,
  some, List, [], ◌∷◌, ◌++◌,
}
use blackbox_profiling.BothMultiple.{is_heap}
use blackbox_profiling.Mser.{page_write, change_page, mser, visit_page, mser_heaps, mser_tasks}
use blackbox_profiling.Linux.{Action, Task, Arch, Mm, Vma}
use blackbox_profiling.BothMultiple.Heap.{NoHeap}
use blackbox_profiling.Mser.Agrees.{cleaned_at, remap_user_lem, cleaned_at-ptes}
use blackbox_profiling.FunctimeModule.Modifier.{Walk}
use blackbox_profiling.FunctimeModule.Write.{written, efault, undefined}
use blackbox_profiling.FunctimeModule.Finder.{Found, page_address}
use blackbox_profiling.FunctimeModule.Modifier.Pages.{noncached_pte}
use blackbox_profiling.Functime.Waiting.{lost}
use blackbox_profiling.Functime.Maps.{str_eq}

-- No process of the name.
abbrev pub NoMser : List Task → Type 0
NoMser [] = Unit {0}
NoMser (t ∷ ts) = (str_eq t.comm mser ≡ false) × NoMser ts

-- What a visit of the one process of the name leaves.
abbrev pub with_found :
    List Task → Task → List Task → Mm → Option Found → Option (List Task × List Action)
with_found first t rest mm none = none
with_found first t rest mm (some f) =
    some (
      first ++ (record t { mm = some (record mm { mmap = f.areas; ptes = f.ptes }) } ∷ rest),
      f.log,
    )

-- What the change of the one area leaves.
abbrev pub with_area : List Vma → List Vma → Option Walk → Option Found
with_area before after none = none
with_area before after (some w) =
    some (record { areas = before ++ (w.area ∷ after); ptes = w.ptes; log = w.log })

mser_heaps-NoHeap :
    (change : Walk → Option Walk) (start_brk brk : ℕ) (vs : List Vma) (ptes : ℕ → ℕ)
    (log : List Action)
    → NoHeap start_brk brk vs
    → mser_heaps change start_brk brk vs ptes log
      ≡ some (record { areas = vs; ptes = ptes; log = log })
unfolding mser_heaps
mser_heaps-NoHeap change start_brk brk [] ptes log h = refl
mser_heaps-NoHeap change start_brk brk (v ∷ vs) ptes log h =
    rw (h.0, mser_heaps-NoHeap change start_brk brk vs ptes log h.1, mser_heaps) refl

mser_heaps-from :
    (change : Walk → Option Walk) (start_brk brk : ℕ) (before : List Vma) (v : Vma)
    (after : List Vma) (ptes : ℕ → ℕ) (log : List Action) (o : Option Walk)
    → NoHeap start_brk brk before
    → is_heap start_brk brk v ≡ true
    → NoHeap start_brk brk after
    → change (record { area = v; ptes = ptes; log = log }) ≡ o
    → mser_heaps change start_brk brk (before ++ (v ∷ after)) ptes log ≡ with_area before after o
unfolding mser_heaps
mser_heaps-from change start_brk brk [] v after ptes log none b is a e = rw (is, e, mser_heaps) refl
mser_heaps-from change start_brk brk [] v after ptes log (some w) b is a e =
    rw (is, e, mser_heaps-NoHeap change start_brk brk after w.ptes w.log a, mser_heaps) refl
mser_heaps-from change start_brk brk (u ∷ before) v after ptes log none b is a e =
    rw
      (
        b.0,
        mser_heaps-from change start_brk brk before v after ptes log none b.1 is a e,
        mser_heaps,
      )
      refl
mser_heaps-from change start_brk brk (u ∷ before) v after ptes log (some w) b is a e =
    rw
      (
        b.0,
        mser_heaps-from change start_brk brk before v after ptes log (some w) b.1 is a e,
        mser_heaps,
      )
      refl

mser_tasks-NoMser :
    (visit : Mm → List Action → Option Found) (ts : List Task) (log : List Action)
    → NoMser ts
    → mser_tasks visit ts log ≡ some (ts, log)
unfolding mser_tasks
mser_tasks-NoMser visit [] log h = refl
mser_tasks-NoMser visit (t ∷ ts) log h =
    rw (h.0, mser_tasks-NoMser visit ts log h.1, mser_tasks) refl

mser_tasks-from :
    (visit : Mm → List Action → Option Found) (first : List Task) (t : Task) (rest : List Task)
    (mm : Mm) (log : List Action) (o : Option Found)
    → NoMser first
    → str_eq t.comm mser ≡ true
    → NoMser rest
    → t.mm ≡ some mm
    → visit mm log ≡ o
    → mser_tasks visit (first ++ (t ∷ rest)) log ≡ with_found first t rest mm o
unfolding mser_tasks
mser_tasks-from visit [] t rest mm log none b is a there e = rw (is, there, e, mser_tasks) refl
mser_tasks-from visit [] t rest mm log (some f) b is a there e =
    rw (is, there, e, mser_tasks-NoMser visit rest f.log a, mser_tasks) refl
mser_tasks-from visit (u ∷ first) t rest mm log none b is a there e =
    rw (b.0, mser_tasks-from visit first t rest mm log none b.1 is a there e, mser_tasks) refl
mser_tasks-from visit (u ∷ first) t rest mm log (some f) b is a there e =
    rw (b.0, mser_tasks-from visit first t rest mm log (some f) b.1 is a there e, mser_tasks) refl

-- Where one process has the name "mser", and exactly one area of it meets its heap: a request with
-- the number 0 changes nothing; one with another number makes the entry of that page, counted from
-- 1 from the start of the area, noncacheable, and leaves every other entry and process, if the walk
-- reaches that page; otherwise the kernel faults. A request that cannot be copied gives EFAULT.
pub page_write_lem :
    (arch : Arch) (backed : Mm → ℕ → Bool) (p c : ℕ) (first : List Task) (t : Task)
    (rest : List Task) (mm : Mm) (before : List Vma) (v : Vma) (after : List Vma)
    (log : List Action)
    → NoMser first
    → str_eq t.comm mser ≡ true
    → NoMser rest
    → t.mm ≡ some mm
    → mm.mmap ≡ before ++ (v ∷ after)
    → NoHeap mm.start_brk mm.brk before
    → is_heap mm.start_brk mm.brk v ≡ true
    → NoHeap mm.start_brk mm.brk after
    → let a = page_address v.vm_start p in
      let tasks = first ++ (t ∷ rest) in
      (w : Walk) × (page_write arch backed (some p) tasks log ≡ (
        if p == 0
        then written tasks log
        else if backed mm a
        then written
            (first
              ++ (record t {
                mm = some (record mm { mmap = before ++ (w.area ∷ after); ptes = w.ptes });
              }
                  ∷ rest))
            w.log
        else undefined))
      × (w.ptes c ≡ (if c == a then noncached_pte arch v.vm_page_prot (mm.ptes a) else mm.ptes c))
      × (page_write arch backed none tasks log ≡ efault)
unfolding page_write change_page
page_write_lem arch backed p c first t rest mm before v after log b is a there areas nb heap na =
    let addr = page_address v.vm_start p in
    let w0 : Walk = record { area = v; ptes = mm.ptes; log = log } in
    let w = cleaned_at arch addr addr w0 in
    let o : Option Walk = if backed mm addr then some w else none in
    let changed : change_page arch (backed mm) p w0 ≡ o =
      rw (remap_user_lem arch addr w0, change_page) refl in
    let visited =
      ap (λ vs. mser_heaps (change_page arch (backed mm) p) mm.start_brk mm.brk vs mm.ptes log)
        areas
      ∙ mser_heaps-from (change_page arch (backed mm) p) mm.start_brk mm.brk before v after mm.ptes
          log o nb heap na changed in
    let all =
      mser_tasks-from (visit_page arch backed p) first t rest mm log (with_area before after o) b is
        a there visited in
    (
      w,
      elim (Bool-cases (p == 0)) [
        | inl zero_asked ↦ rw (zero_asked, page_write) refl
        | inr asked ↦ elim (Bool-cases (backed mm addr)) [
          | inl reached ↦ rw (asked, all, reached, page_write) refl
          | inr lost ↦ rw (asked, all, lost, page_write) refl
        ]
      ],
      cleaned_at-ptes arch addr c w0,
      refl,
    )
