-- ===== src/HelloOnce/Pages.antt =====
-- Which pages a run of the program has its module walk.
use blackbox_profiling.Base.{
  ℕ, Bool-cases, leb, ltb, elem, page_size, ◌+◌, ◌*◌, ◌≡◌, inl, inr, ◌&&◌, ◌||◌, List, [], ◌∷◌, ◌-◌,
  sym, ◌∙◌, arith, refl, ◌++◌, ◌==◌, mul_word, word, add_word, ◌<◌, ◌≢◌, ◌⊎◌, true, not, some, ap,
  if◌then◌else◌, sub_word, false, Option, none,
}
use blackbox_profiling.AllButOne.{
  print_pages, print_page, walk_ranges, in_ranges, walk_tasks, page_ranges, print_proc_write,
  walk_heaps, walk_mm,
}
use blackbox_profiling.Linux.{Arch, ArchLaws, Mm, Task, Vma}
use blackbox_profiling.SinglePage.{hello}
use blackbox_profiling.BothMultiple.{is_heap}
use blackbox_profiling.HelloOnce.{hello_once, OnceState, once_timed}
use blackbox_profiling.BothMultiple.Heap.{NoHeap}
use blackbox_profiling.Functime.Maps.{str_eq}
use blackbox_profiling.AllButOne.Cover.{page_ranges_cover}
use blackbox_profiling.Hello.Buffer.{fill_all_lem}

elem-append : (a : ℕ) (xs ys : List ℕ) → elem a (xs ++ ys) ≡ (elem a xs || elem a ys)
elem-append a [] ys = refl
elem-append a (x ∷ xs) ys = ground (arith, elem-append a xs ys)

module _ (arch : Arch) (laws : ArchLaws arch) where
  -- A page, and a range of whole pages from the same base on.
  walked-range :
      (base i j len : ℕ)
      → let a = base + i * page_size in
        let start = base + j * page_size in
        elem a (arch.pte_walk start len) ≡ (leb start a && ltb a (start + len))
  walked-range base i j len =
      let a = base + i * page_size in
      let start = base + j * page_size in
      elim (Bool-cases (elem a (arch.pte_walk start len))) [
        | inl e ↦ let (k, lt, at) = laws.walk_only start len a e in ground (arith, e, lt, at)
        | inr e ↦ elim (Bool-cases (leb start a && ltb a (start + len))) [
          | inl within ↦ absurd (ground (arith, e, within, laws.walk_in start len (i - j)))
          | inr beyond ↦ e ∙ sym beyond
        ]
      ]

  print_pages-elem :
      (a : ℕ) (more seen : List ℕ) → elem a (print_pages more seen) ≡ (elem a seen || elem a more)
  print_pages-elem a [] seen = ground arith
  print_pages-elem a (x ∷ more) seen =
      print_pages-elem a more (print_page x seen) ∙ grind (arith, elem-append a seen (x ∷ []))

  -- Ranges of whole pages from the same base on, none of them empty.
  abbrev WholeFrom : ℕ → List (ℕ × ℕ) → Type 0
  WholeFrom base [] = Unit {0}
  WholeFrom base (r ∷ rs) =
      ((j : ℕ) × (r.0 ≡ base + j * page_size) × (ltb r.0 (add_word r.0 r.1) ≡ true))
      × WholeFrom base rs

  walk_ranges-elem :
      (base i : ℕ) (rs : List (ℕ × ℕ)) (seen : List ℕ)
      → WholeFrom base rs
      → let a = base + i * page_size in
        (seen' : List ℕ) × (walk_ranges arch rs seen ≡ some seen')
        × (elem a seen' ≡ (elem a seen || in_ranges a rs))
  walk_ranges-elem base i [] seen whole = (seen, refl, ground arith)
  walk_ranges-elem base i (r ∷ rs) seen ((j, at, filled), whole) =
      let a = base + i * page_size in
      let here : elem a (arch.pte_walk r.0 r.1) ≡ (leb r.0 a && ltb a (r.0 + r.1)) =
        rw at (walked-range base i j r.1) in
      let (seen', done, all) =
        walk_ranges-elem base i rs (print_pages (arch.pte_walk r.0 r.1) seen) whole in
      (
        seen',
        rw filled done,
        all ∙ ground (arith, print_pages-elem a (arch.pte_walk r.0 r.1) seen, here),
      )

  page_ranges-WholeFrom :
      (p n vm_start vm_end : ℕ)
      → 0 < p
      → vm_end ≡ vm_start + n * page_size
      → vm_end < word
      → ((p ≢ 45) × (p < n)) ⊎ ((p ≡ 45) × (n ≡ 45))
      → WholeFrom vm_start (page_ranges p vm_start vm_end)
  unfolding page_ranges
  page_ranges-WholeFrom p n vm_start vm_end pos end' fits inner =
      let behind : add_word vm_start (mul_word p page_size) ≡ vm_start + p * page_size =
        ground (arith, inner) in
      let second : add_word vm_start page_size ≡ vm_start + 1 * page_size = ground (arith, inner) in
      let first : vm_start ≡ vm_start + 0 * page_size = omega arith in
      elim (Bool-cases (p == 1)) [
        | inl one ↦ rw one ((1, second, ground (arith, inner)), tt)
        | inr other ↦ elim (Bool-cases (p == 45)) [
          | inl last ↦ rw (other, last) ((0, first, ground (arith, inner)), tt)
          | inr middle ↦
              rw (other, middle)
                ((0, first, ground (arith, inner)), ((p, behind, ground (arith, inner)), tt))
        ]
      ]

  -- The page number of the last page, which is not taken for the 45th.
  page_ranges-last :
      (p vm_start vm_end : ℕ) (seen : List ℕ)
      → 0 < p
      → vm_end ≡ vm_start + p * page_size
      → vm_end < word
      → p ≢ 45
      → walk_ranges arch (page_ranges p vm_start vm_end) seen ≡ none
  unfolding page_ranges
  page_ranges-last p vm_start vm_end seen pos end' fits not_last = elim (Bool-cases (p == 1)) [
    | inl one ↦
        let empty : ltb (add_word vm_start page_size) (
              add_word (add_word vm_start page_size)
                (sub_word vm_end (add_word vm_start (mul_word p page_size))))
            ≡ false =
          ground arith in
        rw (one, empty) refl
    | inr other ↦
        let not45 : (p == 45) ≡ false = ground arith in
        let below : ltb vm_start (add_word vm_start (mul_word (sub_word p 1) page_size)) ≡ true =
          ground arith in
        let behind = add_word vm_start (mul_word p page_size) in
        let empty : ltb behind (add_word behind (sub_word vm_end behind)) ≡ false = ground arith in
        rw (other, not45, below, empty) refl
  ]

walk_heaps-NoHeap :
    (arch : Arch) (p start_brk brk : ℕ) (vs : List Vma) (seen : List ℕ)
    → NoHeap start_brk brk vs
    → walk_heaps arch p start_brk brk vs seen ≡ some seen
unfolding walk_heaps
walk_heaps-NoHeap arch p start_brk brk [] seen h = refl
walk_heaps-NoHeap arch p start_brk brk (v ∷ vs) seen h =
    rw (h.0, walk_heaps) (walk_heaps-NoHeap arch p start_brk brk vs seen h.1)

-- Where one area meets the heap, what its walk gives.
walk_heaps-from :
    (arch : Arch) (p start_brk brk : ℕ) (before : List Vma) (v : Vma) (after : List Vma)
    (seen : List ℕ) (o : Option (List ℕ))
    → NoHeap start_brk brk before
    → is_heap start_brk brk v ≡ true
    → NoHeap start_brk brk after
    → walk_ranges arch (page_ranges p v.vm_start v.vm_end) seen ≡ o
    → walk_heaps arch p start_brk brk (before ++ (v ∷ after)) seen ≡ o
unfolding walk_heaps
walk_heaps-from arch p start_brk brk [] v after seen none b is a e = rw (is, e, walk_heaps) refl
walk_heaps-from arch p start_brk brk [] v after seen (some seen') b is a e =
    rw (is, e, walk_heaps) (walk_heaps-NoHeap arch p start_brk brk after seen' a)
walk_heaps-from arch p start_brk brk (u ∷ before) v after seen o b is a e =
    rw (b.0, walk_heaps) (walk_heaps-from arch p start_brk brk before v after seen o b.1 is a e)

walk_mm-from :
    (arch : Arch) (p : ℕ) (mm : Mm) (before : List Vma) (v : Vma) (after : List Vma) (seen : List ℕ)
    → mm.mmap ≡ before ++ (v ∷ after)
    → walk_mm arch p mm seen ≡ walk_heaps arch p mm.start_brk mm.brk mm.mmap seen
walk_mm-from arch p mm [] v after seen areas = rw areas refl
walk_mm-from arch p mm (u ∷ before) v after seen areas = rw areas refl

walk_mm-heap :
    (arch : Arch) (p : ℕ) (mm : Mm) (before : List Vma) (v : Vma) (after : List Vma)
    (o : Option (List ℕ))
    → mm.mmap ≡ before ++ (v ∷ after)
    → NoHeap mm.start_brk mm.brk before
    → is_heap mm.start_brk mm.brk v ≡ true
    → NoHeap mm.start_brk mm.brk after
    → walk_ranges arch (page_ranges p v.vm_start v.vm_end) [] ≡ o
    → walk_mm arch p mm [] ≡ o
walk_mm-heap arch p mm before v after o areas b is a e =
    walk_mm-from arch p mm before v after [] areas
    ∙ ap (λ vs. walk_heaps arch p mm.start_brk mm.brk vs []) areas
    ∙ walk_heaps-from arch p mm.start_brk mm.brk before v after [] o b is a e

module _ (arch : Arch) (laws : ArchLaws arch) (strtol cycles : List ℕ → ℕ) (arg : List ℕ)
    (args : List (List ℕ)) (t : Task) (mm : Mm) (before : List Vma) (v : Vma) (after : List Vma)
    (buf : ℕ → ℕ) (is_hello : str_eq t.comm hello ≡ true) (memory : t.mm ≡ some mm)
    (areas : mm.mmap ≡ before ++ (v ∷ after)) (b : NoHeap mm.start_brk mm.brk before)
    (is : is_heap mm.start_brk mm.brk v ≡ true) (a : NoHeap mm.start_brk mm.brk after) where
  -- Where "hello" is the only process, exactly one area meets its heap, this area has n pages and
  -- ends below 2 ^ 32, and the argument is a number p from 1 to n - 1 but not 45, or p and n are
  -- 45: the program runs through, its line is for p, and its module has walked every page of the
  -- heap but the p-th. Every 32nd cell of the first 51200 of its buffer is then 243, the last
  -- number of a round as a `char`, and every other one as before.
  pub hello_once_lem :
      (n k j r : ℕ)
      → v.vm_end ≡ v.vm_start + n * page_size
      → v.vm_end < word
      → 0 < strtol arg
      → ((strtol arg ≢ 45) × (strtol arg < n)) ⊎ ((strtol arg ≡ 45) × (n ≡ 45))
      → k < n
      → r < 32
      → (s : OnceState) × (hello_once arch strtol cycles (arg ∷ args) (t ∷ []) buf ≡ some s)
        × (elem (v.vm_start + k * page_size) s.seen ≡ not (k + 1 == strtol arg))
        × (s.line.0 ≡ strtol arg)
        × (s.buf (j * 32 + r) ≡ (if r == 0 && ltb j 1600 then 243 else buf (j * 32 + r)))
  unfolding hello_once print_proc_write walk_tasks
  hello_once_lem n k j r end' fits pos inner inside place =
      let p = strtol arg in
      let (seen, done, listed) =
        walk_ranges-elem arch laws v.vm_start k (page_ranges p v.vm_start v.vm_end) []
          (page_ranges-WholeFrom arch laws p n v.vm_start v.vm_end pos end' fits inner) in
      let walk_done = walk_mm-heap arch p mm before v after (some seen) areas b is a done in
      (
        once_timed cycles p seen buf,
        rw (is_hello, memory, walk_done, hello_once, print_proc_write, walk_tasks) refl,
        listed
            ∙ page_ranges_cover p n k v.vm_start v.vm_end pos (ground (arith, inner)) inside end'
                fits (elim inner [ inl x ↦ inl x.0 | inr x ↦ inr x.1 ]),
        refl,
        fill_all_lem j r buf place,
      )

  -- Where the argument names the last page of the heap, and is not 45, the program does not come
  -- back: the range behind that page is empty, which stops the kernel.
  pub hello_once_last :
      v.vm_end ≡ v.vm_start + strtol arg * page_size
      → v.vm_end < word
      → 0 < strtol arg
      → strtol arg ≢ 45
      → hello_once arch strtol cycles (arg ∷ args) (t ∷ []) buf ≡ none
  unfolding hello_once print_proc_write walk_tasks
  hello_once_last end' fits pos not_last =
      let p = strtol arg in
      let stopped =
        walk_mm-heap arch p mm before v after none areas b is a
          (page_ranges-last arch laws p v.vm_start v.vm_end [] pos end' fits not_last) in
      rw (is_hello, memory, stopped, hello_once, print_proc_write, walk_tasks) refl
