-- ===== src/System/Files.antt =====
-- The descriptors that the requests leave open.
use blackbox_profiling.Base.{
  leb, lt→leb, ℕ, zero, suc, ◌+◌, ◌≤◌, ◌<◌, ◌≡◌, refl, sym, ap, ◌∙◌, true, Option, List, arith,
  subst, ◌≢◌, some,
}
use blackbox_profiling.BothMultiple.{heap_proc_write}
use blackbox_profiling.System.{on_machine, served, copy_of, Combined, send_params}
use blackbox_profiling.Linux.{Task, Gup, Arch}
use blackbox_profiling.FunctimeModule.Write.{undefined, WriteResult, written, efault}
use blackbox_profiling.System.Ptraced.{on_machine-Keeps, on_machine-Works}
use blackbox_profiling.Functime.Trace.{
  Ptrace, next, tracee_init, KernelParams, handle_trace_event, Tracer,
}
use blackbox_profiling.Functime.Maps.{MapsLine, MapsState}
use blackbox_profiling.Functime.Run.Stages.{handle_trace_event-stage}
use blackbox_profiling.Functime.Trace.Handles.{next_stage, handle_trace_event-next, Works}
use blackbox_profiling.Functime.Trace.Cycle.{
  measured_entry-next, handle_init, handle_entry, handle_exit,
}
use blackbox_profiling.Functime.Trace.Keeps.{Keeps, on_exit-keeps, on_entry-keeps, on_init-keeps}

module _ {T : Type 0} (arch : Arch) (gup : Gup) (limit : ℕ)
    (run_on : T → List Task → Option (T × List Task)) (os : Ptrace T)
    (sscanf : List ℕ → Option MapsLine) where
  abbrev Handles : Tracer → Combined T → Tracer → Combined T → Type 0
  Handles g m g' m' =
      handle_trace_event (on_machine arch gup limit run_on os) sscanf g m ≡ next g' m'

  -- `Calls n g m g' m'`: n calls of the function, each with its three events that are handled.
  pub data Calls : ℕ → Tracer → Combined T → Tracer → Combined T → Type 0 where
    no_call : {g : Tracer} {m : Combined T} → Calls zero g m g m
    call :
        {n : ℕ} {g g1 g2 g3 g' : Tracer} {m m1 m2 m3 m' : Combined T}
        → Handles g m g1 m1
        → Handles g1 m1 g2 m2
        → Handles g2 m2 g3 m3
        → Calls n g3 m3 g' m'
        → Calls (suc n) g m g' m'

  served-open_files :
      (r : WriteResult) (m : Combined T) → (served arch gup limit r m).open_files ≡ m.open_files
  served-open_files (written tasks log) m = refl
  served-open_files efault m = refl
  served-open_files undefined m = refl

  send_params-room :
      (m : Combined T) (p : KernelParams)
      → m.open_files < limit
      → (send_params arch gup limit m p).open_files ≡ m.open_files + 1
  unfolding send_params
  send_params-room m p room =
      rw (lt→leb m.open_files limit room, send_params)
        (served-open_files (heap_proc_write arch gup (copy_of p) m.tasks m.log)
          (record m { open_files = m.open_files + 1 }))

  send_params-full :
      (m : Combined T) (p : KernelParams)
      → limit ≤ m.open_files
      → send_params arch gup limit m p ≡ m
  unfolding send_params
  send_params-full m p full =
      let e : leb limit m.open_files ≡ true = ground arith in rw (e, send_params) refl

  -- A view that only the request may change, behind one call.
  call-view :
      {X : Type 0} (view : Combined T → X) (g g1 g2 g3 : Tracer) (m m1 m2 m3 : Combined T)
      → Keeps (on_machine arch gup limit run_on os) view
      → g.stage ≡ tracee_init
      → Handles g m g1 m1
      → Handles g1 m1 g2 m2
      → Handles g2 m2 g3 m3
      → (g3.stage ≡ tracee_init)
        × (p : KernelParams) × (view m1 ≡ view m)
        × (view m3 ≡ view (send_params arch gup limit m1 p))
  call-view view g g1 g2 g3 m m1 m2 m3 keeps init h1 h2 h3 =
      let os' = on_machine arch gup limit run_on os in
      let s1 = handle_trace_event-stage os' sscanf g g1 m m1 h1 ∙ ap next_stage init in
      let s2 = handle_trace_event-stage os' sscanf g1 g2 m1 m2 h2 ∙ ap next_stage s1 in
      let s3 = handle_trace_event-stage os' sscanf g2 g3 m2 m3 h3 ∙ ap next_stage s2 in
      let (maps', entered) =
        measured_entry-next os' sscanf g1 g2 m1 m2 (sym (handle_entry os' sscanf g1 m1 s1) ∙ h2) in
      (
        s3,
        record g1.params { pid = g1.tracee_pid },
        on_init-keeps os' keeps g g1 m m1 (sym (handle_init os' sscanf g m init) ∙ h1),
        on_exit-keeps os' keeps g2 g3 m2 m3 (sym (handle_exit os' sscanf g2 m2 s2) ∙ h3)
            ∙ on_entry-keeps os' keeps (record g1 { maps = maps' }) g2 m1 m2 entered,
      )

  open_files-Keeps : Keeps (on_machine arch gup limit run_on os) (λ (x : Combined T). x.open_files)
  open_files-Keeps =
      on_machine-Keeps arch gup limit run_on os (λ (x : Combined T). x.open_files) (λ x t. refl)
        (λ x r e. refl)

  log-Keeps : Keeps (on_machine arch gup limit run_on os) (λ (x : Combined T). x.log)
  log-Keeps =
      on_machine-Keeps arch gup limit run_on os (λ (x : Combined T). x.log) (λ x t. refl)
        (λ x r e. refl)

  calls-room :
      (n : ℕ) (g g' : Tracer) (m m' : Combined T)
      → Calls n g m g' m'
      → g.stage ≡ tracee_init
      → m.open_files + n ≤ limit
      → (g'.stage ≡ tracee_init) × (m'.open_files ≡ m.open_files + n)
  calls-room zero g g' m m' no_call init room = (init, omega arith)
  calls-room (suc n) g g' m m'
        (call {g1 = g1} {g2 = g2} {g3 = g3} {m1 = m1} {m2 = m2} {m3 = m3} h1 h2 h3 more) init room =
      let (init3, p, one, three) =
        call-view (λ (x : Combined T). x.open_files) g g1 g2 g3 m m1 m2 m3 open_files-Keeps init h1
          h2 h3 in
      let sent = send_params-room m1 p (omega (arith, one, room)) in
      let (init', all) =
        calls-room n g3 g' m3 m' more init3 (omega (arith, one, three, sent, room)) in
      (init', omega (arith, one, three, sent, all))

  calls-full :
      (n : ℕ) (g g' : Tracer) (m m' : Combined T)
      → Calls n g m g' m'
      → g.stage ≡ tracee_init
      → limit ≤ m.open_files
      → (m'.open_files ≡ m.open_files) × (m'.log ≡ m.log)
  calls-full zero g g' m m' no_call init full = (refl, refl)
  calls-full (suc n) g g' m m'
        (call {g1 = g1} {g2 = g2} {g3 = g3} {m1 = m1} {m2 = m2} {m3 = m3} h1 h2 h3 more) init full =
      let (init3, p, one, three) =
        call-view (λ (x : Combined T). x.open_files) g g1 g2 g3 m m1 m2 m3 open_files-Keeps init h1
          h2 h3 in
      let (_, p', one', three') =
        call-view (λ (x : Combined T). x.log) g g1 g2 g3 m m1 m2 m3 log-Keeps init h1 h2 h3 in
      let full1 : limit ≤ m1.open_files = omega (arith, one, full) in
      let same3 =
        three ∙ ap (λ (x : Combined T). x.open_files) (send_params-full m1 p full1) ∙ one in
      let (files, log) = calls-full n g3 g' m3 m' more init3 (omega (arith, same3, full)) in
      (
        files ∙ same3,
        log ∙ three' ∙ ap (λ (x : Combined T). x.log) (send_params-full m1 p' full1) ∙ one',
      )

  -- Each request opens /proc/memprofile and leaves it open. So after as many calls of the function
  -- as descriptors are left, none is left, and in any further calls the module does nothing: their
  -- times are taken although no request is sent.
  pub requests_run_out :
      (left more : ℕ) (g g1 g2 : Tracer) (m m1 m2 : Combined T)
      → g.stage ≡ tracee_init
      → m.open_files + left ≡ limit
      → Calls left g m g1 m1
      → Calls more g1 m1 g2 m2
      → (m1.open_files ≡ limit) × (m2.open_files ≡ limit) × (m2.log ≡ m1.log)
  requests_run_out left more g g1 g2 m m1 m2 init full calls further =
      let (init1, all) = calls-room left g g1 m m1 calls init (omega (arith, full)) in
      let (files, log) = calls-full more g1 g2 m1 m2 further init1 (omega (arith, full, all)) in
      (all ∙ full, files ∙ all ∙ full, log)

  -- Where no request of ptrace fails, each run comes to a stop, and the heap is known, any number
  -- of calls is handled.
  pub Calls-exist :
      (works : Works os)
      (halts : (t : T) (ts : List Task) → (r : T × List Task) × (run_on t ts ≡ some r)) (n : ℕ)
      (g : Tracer) (m : Combined T)
      → g.maps.heap_size ≢ 0
      → (g' : Tracer) × (m' : Combined T) × Calls n g m g' m' × (g'.maps.heap_size ≢ 0)
  Calls-exist works halts zero g m known = (g, m, no_call, known)
  Calls-exist works halts (suc n) g m known =
      let os' = on_machine arch gup limit run_on os in
      let works' = on_machine-Works arch gup limit run_on os works halts in
      let (g1, m1, h1, _, same1) = handle_trace_event-next os' works' sscanf g m known in
      let known1 = subst (λ (x : MapsState). x.heap_size ≢ 0) (sym same1) known in
      let (g2, m2, h2, _, same2) = handle_trace_event-next os' works' sscanf g1 m1 known1 in
      let known2 = subst (λ (x : MapsState). x.heap_size ≢ 0) (sym same2) known1 in
      let (g3, m3, h3, _, same3) = handle_trace_event-next os' works' sscanf g2 m2 known2 in
      let (g', m', more, known') =
        Calls-exist works halts n g3 m3
          (subst (λ (x : MapsState). x.heap_size ≢ 0) (sym same3) known2) in
      (g', m', call h1 h2 h3 more, known')
