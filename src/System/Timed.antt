-- ===== src/System/Timed.antt =====
-- What the page table of the tracee is while its function is timed.
use blackbox_profiling.Base.{
  found, if◌then◌else◌, page_size, ℕ, ◌+◌, ◌-◌, ◌*◌, ◌<◌, ◌≡◌, refl, sym, ap, ◌∙◌, true, not,
  Option, none, some, List, ◌∷◌, ◌++◌, elem, add_word, sub_word, word,
}
use blackbox_profiling.BothMultiple.{is_heap, HeapRequest}
use blackbox_profiling.System.{send_params, on_machine, Combined, entry_in, entry_of}
use blackbox_profiling.Linux.{Vma, Task, ArchLaws, Arch, GupLaws, AreasFrom, Gup, Mm}
use blackbox_profiling.BothMultiple.Tasks.{Without}
use blackbox_profiling.BothMultiple.Heap.{NoHeap, find_heap_pages}
use blackbox_profiling.FunctimeModule.Populate.{Pop, finished, mm_populate}
use blackbox_profiling.FunctimeModule.Finder.Area.{IsArea, AllBelow}
use blackbox_profiling.FunctimeModule.Modifier.Pages.{noncached_pte}
use blackbox_profiling.System.Request.{send_params-one, process_of-one}
use blackbox_profiling.Functime.Trace.{
  Ptrace, KernelParams, tracee_entry, next, handle_trace_event, Tracer,
}
use blackbox_profiling.Functime.Maps.{MapsLine}
use blackbox_profiling.Functime.Trace.Cycle.{handle_entry, measured_entry-next, handle_exit}
use blackbox_profiling.System.Ptraced.{after_run-some, on_machine-Untouched}
use blackbox_profiling.Functime.Trace.Keeps.{on_exit-counts, on_entry-resumes}
use blackbox_profiling.Functime.Trace.Elapsed.{elapsed_lem}

-- The one process with the pid, and the first area that meets its heap, which has whole pages.
pub record HeapOf (pid : ℕ) (tasks : List Task) : Type 0 where
  pub first : List Task
  pub task : Task
  pub rest : List Task
  pub mm : Mm
  pub below : List Vma
  pub heap : Vma
  pub above : List Vma
  pub split : tasks ≡ first ++ (task ∷ rest)
  pub here : task.pid ≡ pid
  pub none_before : Without pid first
  pub none_behind : Without pid rest
  pub memory : task.mm ≡ some mm
  pub ordered : AreasFrom 0 mm.mmap
  pub areas : mm.mmap ≡ below ++ (heap ∷ above)
  pub none_below : NoHeap mm.start_brk mm.brk below
  pub meets : is_heap mm.start_brk mm.brk heap ≡ true
  pub whole : IsArea heap

-- The unsigned difference of the two times, though the counter goes round.
elapsed_samples :
    (s s' t t' e d : ℕ)
    → t < word
    → d < word
    → t' ≡ t
    → s' ≡ s
    → e ≡ add_word t d
    → add_word s' (sub_word e t') ≡ add_word s d
elapsed_samples s s' t t' e d ht hd ht' hs' he =
    rw (ht', hs', he) (ap (add_word s) (elapsed_lem t d ht hd).0)

module _ {T : Type 0} (arch : Arch) (laws : ArchLaws arch) (gup : Gup) (gup_laws : GupLaws gup)
    (limit : ℕ) (run_on : T → List Task → Option (T × List Task)) (os : Ptrace T) where
  -- A request for pages of the heap, and the entry of the k-th page, from 0.
  send_params-entry :
      (m : Combined T) (p : KernelParams) (h : HeapOf p.pid m.tasks) (k : ℕ)
      → m.open_files < limit
      → AllBelow 1048576 p.buff
      → k * page_size < h.heap.vm_end - h.heap.vm_start
      → let a = h.heap.vm_start + k * page_size in
        (u : Pop) × (mm_populate gup h.mm.mmap true h.heap.vm_start
            (h.heap.vm_end - h.heap.vm_start)
            h.mm.ptes
          ≡ finished none u)
        × (entry_of p.pid a (send_params arch gup limit m p).tasks
            ≡ some (
                if (if elem (k + 1) p.buff then p.should_skip else not p.should_skip)
                then noncached_pte arch h.heap.vm_page_prot (u.ptes a)
                else u.ptes a))
  send_params-entry m p h k room small inside =
      let a = h.heap.vm_start + k * page_size in
      let cp : HeapRequest = record { buff = p.buff; should_skip = p.should_skip; pid = p.pid } in
      let (u, w, populated, changed, entry) =
        find_heap_pages arch laws gup gup_laws cp h.mm h.below h.heap h.above m.log k h.ordered
          h.whole h.areas h.none_below h.meets small inside in
      let sent =
        send_params-one arch gup limit m p h.first h.task h.rest h.mm _ room h.split h.none_before
          h.here h.memory h.none_behind changed in
      (
        u,
        populated,
        ap (λ (x : Combined T). entry_of p.pid a x.tasks) sent
            ∙ ap (entry_in a) (
                process_of-one p.pid h.first _ h.rest h.none_before
                  (found h.task.pid p.pid (sym h.here)))
            ∙ ap some entry,
      )

  -- Where a run of the tracee takes `spend` cycles, of the tracee and the page tables it runs on,
  -- and neither these nor the counter reach 2 ^ 32; where the tracee is the one process with its
  -- pid, the first area that meets its heap has whole pages, a descriptor is left, and the page
  -- numbers lie below 2 ^ 20: if the event at the entry of the function and the next one are
  -- handled, a run on the page tables behind the request has led to the state of the second event,
  -- and `samples` has grown by the cycles of that run, though the counter may have gone round. In
  -- these page tables the k-th page of the heap, from 0, is noncacheable exactly if `should_skip`
  -- is set and the request names k + 1, or `should_skip` is clear and it does not; otherwise its
  -- entry is as the population of the heap left it.
  pub timed_call :
      (sscanf : List ℕ → Option MapsLine) (spend : T → List Task → ℕ)
      (clock : (t : T) (ts : List Task) (r : T × List Task)
        → run_on t ts ≡ some r
        → os.timing r.0 ≡ add_word (os.timing t) (spend t ts))
      (timing_word : (t : T) → os.timing t < word)
      (spend_word : (t : T) (ts : List Task) → spend t ts < word) (g1 g2 g3 : Tracer)
      (m1 m2 m3 : Combined T) (h : HeapOf g1.tracee_pid m1.tasks) (k : ℕ)
      → g1.stage ≡ tracee_entry
      → m1.open_files < limit
      → AllBelow 1048576 g1.params.buff
      → k * page_size < h.heap.vm_end - h.heap.vm_start
      → handle_trace_event (on_machine arch gup limit run_on os) sscanf g1 m1 ≡ next g2 m2
      → handle_trace_event (on_machine arch gup limit run_on os) sscanf g2 m2 ≡ next g3 m3
      → let a = h.heap.vm_start + k * page_size in
        let p : KernelParams = record g1.params { pid = g1.tracee_pid } in
        let asked = (send_params arch gup limit m1 p).tasks in
        (t : T) × (u : Pop) × (run_on t asked ≡ some (m2.tracee, m2.tasks))
        × (g3.samples ≡ add_word g1.samples (spend t asked))
        × (mm_populate gup h.mm.mmap true h.heap.vm_start
              (h.heap.vm_end - h.heap.vm_start)
              h.mm.ptes
            ≡ finished none u)
        × (entry_of g1.tracee_pid a asked
            ≡ some (
                if (if elem (k + 1) g1.params.buff
                  then g1.params.should_skip
                  else not g1.params.should_skip)
                then noncached_pte arch h.heap.vm_page_prot (u.ptes a)
                else u.ptes a))
  timed_call sscanf spend clock timing_word spend_word g1 g2 g3 m1 m2 m3 h k stage room small inside
        e1 e2 =
      let machine = on_machine arch gup limit run_on os in
      let p : KernelParams = record g1.params { pid = g1.tracee_pid } in
      let asked = (send_params arch gup limit m1 p).tasks in
      let (maps', entered) =
        measured_entry-next machine sscanf g1 g2 m1 m2
          (sym (handle_entry machine sscanf g1 m1 stage) ∙ e1) in
      let (m, resumed, tables, start, same, stage2) =
        on_entry-resumes machine
          (on_machine-Untouched arch gup limit run_on os (λ (x : Combined T). x.tasks)
            (λ x t. refl))
          (record g1 { maps = maps' }) g2 m1 m2 entered in
      let counted =
        on_exit-counts machine g2 g3 m2 m3 (sym (handle_exit machine sscanf g2 m2 stage2) ∙ e2) in
      let (r, ran_on, state) = after_run-some m m2 (run_on m.tracee m.tasks) resumed in
      let ticks : os.timing m2.tracee ≡ add_word (os.timing m.tracee) (spend m.tracee asked) =
        ap (λ (x : Combined T). os.timing x.tracee) state
        ∙ clock m.tracee m.tasks r ran_on
        ∙ ap (λ ts. add_word (os.timing m.tracee) (spend m.tracee ts)) tables in
      let (u, populated, entry) = send_params-entry m1 p h k room small inside in
      (
        m.tracee,
        u,
        ap (run_on m.tracee) (sym tables)
            ∙ ran_on
            ∙ ap (λ (x : Combined T). some (x.tracee, x.tasks)) (sym state),
        counted
            ∙ elapsed_samples g1.samples g2.samples (os.timing m.tracee) g2.t_start
                (os.timing m2.tracee) (spend m.tracee asked) (timing_word m.tracee)
                (spend_word m.tracee asked) start same ticks,
        populated,
        entry,
      )
