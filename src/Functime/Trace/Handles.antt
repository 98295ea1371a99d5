-- ===== src/Functime/Trace/Handles.antt =====
-- That a trace event is handled.
use blackbox_profiling.Base.{
  ℕ, missed, ◌≡◌, refl, sym, ap, ◌∙◌, ◌≢◌, ◌⊎◌, inl, inr, Option, some, List, sub_word, add_word,
}
use blackbox_profiling.Functime.Trace.{
  set_pc, on_entry, Ptrace, next, tracee_entry, set_breakpoint, get_lr, on_exit, on_init,
  measured_entry, arm_isa_mask, Regs, handle_trace_event, Stage, tracee_init, tracee_exit, Tracer,
}
use blackbox_profiling.Functime.Maps.{MapsLine, ensure_heap}
use blackbox_profiling.Functime.Trace.Cycle.{handle_exit, handle_init, handle_entry}

-- No request of ptrace but a read fails.
pub record Works {T : Type 0} (os : Ptrace T) : Type 0 where
  pub poke_works : (t : T) (a v : ℕ) → (t' : T) × (os.poketext t a v ≡ some t')
  pub getregs_works : (t : T) → (r : Regs) × (os.getregs t ≡ some r)
  pub setregs_works : (t : T) (r : Regs) → (t' : T) × (os.setregs t r ≡ some t')
  pub cont_works : (t : T) → (t' : T) × (os.cont t ≡ some t')

abbrev pub next_stage : Stage → Stage
next_stage tracee_init = tracee_entry
next_stage tracee_entry = tracee_exit
next_stage tracee_exit = tracee_init

pub Stage-cases : (s : Stage) → (s ≡ tracee_entry) ⊎ (s ≡ tracee_exit) ⊎ (s ≡ tracee_init)
Stage-cases tracee_entry = inl refl
Stage-cases tracee_exit = inr (inl refl)
Stage-cases tracee_init = inr (inr refl)

module _ {T : Type 0} (os : Ptrace T) (works : Works os) where
  set_pc_works : (t : T) (a : ℕ) → (t' : T) × (set_pc os t a ≡ some t')
  unfolding set_pc
  set_pc_works t a =
      let (r, e) = works.getregs_works t in
      let (t', f) = works.setregs_works t (record r { pc = a }) in (t', rw (e, f, set_pc) refl)

  on_entry_works :
      (g : Tracer) (t : T)
      → (g' : Tracer) × (t' : T) × (on_entry os g t ≡ next g' t')
        × (g'.stage ≡ tracee_exit)
        × (g'.maps ≡ g.maps)
  unfolding on_entry
  on_entry_works g t =
      let params' = record g.params { pid = g.tracee_pid } in
      let t0 = os.proc_write t params' in
      let (t1, e1) = works.poke_works t0 g.entry_addr g.entry_data in
      let (t2, e2) = set_pc_works t1 g.entry_addr in
      let exit_addr' = arm_isa_mask (get_lr os t2) in
      let (t3, e3) = works.cont_works (set_breakpoint os t2 exit_addr').1 in
      let g' : Tracer = record g {
        params = params';
        exit_addr = exit_addr';
        exit_data = (set_breakpoint os t2 exit_addr').0;
        t_start = os.timing (set_breakpoint os t2 exit_addr').1;
        stage = tracee_exit;
      } in
      (g', t3, rw (e1, e2, e3, on_entry) refl, refl, refl)

  measured_entry_works :
      (sscanf : List ℕ → Option MapsLine) (g : Tracer) (t : T)
      → g.maps.heap_size ≢ 0
      → (g' : Tracer) × (t' : T) × (measured_entry os sscanf g t ≡ next g' t')
        × (g'.stage ≡ tracee_exit)
        × (g'.maps ≡ g.maps)
  unfolding measured_entry ensure_heap
  measured_entry_works sscanf g t known =
      let (g', t', e, st, m) = on_entry_works g t in
      (g', t', rw (missed g.maps.heap_size 0 known, measured_entry) e, st, m)

  on_exit_works :
      (g : Tracer) (t : T)
      → (g' : Tracer) × (t' : T) × (on_exit os g t ≡ next g' t')
        × (g'.stage ≡ tracee_init)
        × (g'.maps ≡ g.maps)
  unfolding on_exit
  on_exit_works g t =
      let (t1, e1) = works.poke_works t g.exit_addr g.exit_data in
      let (t2, e2) = set_pc_works t1 g.exit_addr in
      let (t3, e3) = works.cont_works t2 in
      let g' : Tracer = record g {
        t_end = os.timing t;
        samples = add_word g.samples (sub_word (os.timing t) g.t_start);
        stage = tracee_init;
      } in
      (g', t3, rw (e1, e2, e3, on_exit) refl, refl, refl)

  on_init_works :
      (g : Tracer) (t : T)
      → (g' : Tracer) × (t' : T) × (on_init os g t ≡ next g' t')
        × (g'.stage ≡ tracee_entry)
        × (g'.maps ≡ g.maps)
  unfolding on_init
  on_init_works g t =
      let (t1, e1) = works.cont_works (set_breakpoint os t g.entry_addr).1 in
      let g' : Tracer = record g {
        entry_data = (set_breakpoint os t g.entry_addr).0;
        stage = tracee_entry;
      } in
      (g', t1, rw (e1, on_init) refl, refl, refl)

  -- Where no request fails and the heap is known, an event of any stage is handled: the profiler
  -- neither exits nor crashes, the next stage is the one behind it, and the heap stays known.
  pub handle_trace_event-next :
      (sscanf : List ℕ → Option MapsLine) (g : Tracer) (t : T)
      → g.maps.heap_size ≢ 0
      → (g' : Tracer) × (t' : T) × (handle_trace_event os sscanf g t ≡ next g' t')
        × (g'.stage ≡ next_stage g.stage)
        × (g'.maps ≡ g.maps)
  handle_trace_event-next sscanf g t known = elim (Stage-cases g.stage) [
    | inl s ↦
        let (g', t', e, st, m) = measured_entry_works sscanf g t known in
        (g', t', handle_entry os sscanf g t s ∙ e, st ∙ sym (ap next_stage s), m)
    | inr (inl s) ↦
        let (g', t', e, st, m) = on_exit_works g t in
        (g', t', handle_exit os sscanf g t s ∙ e, st ∙ sym (ap next_stage s), m)
    | inr (inr s) ↦
        let (g', t', e, st, m) = on_init_works g t in
        (g', t', handle_init os sscanf g t s ∙ e, st ∙ sym (ap next_stage s), m)
  ]
