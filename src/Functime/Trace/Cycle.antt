-- ===== src/Functime/Trace/Cycle.antt =====
-- A whole measurement.
use blackbox_profiling.Base.{
  ℕ, Option-cases, sub_word, add_word, ◌≡◌, sym, ap, ◌∙◌, ◌≢◌, inl, inr, Option, List, arith, subst,
}
use blackbox_profiling.Functime.Trace.{
  on_init, Ptrace, Tracer, minus_one, on_entry, tracee_init, tracee_exit, tracee_entry, on_exit,
  next, dispatch, handle_trace_event, measured_entry,
}
use blackbox_profiling.Functime.Maps.{MapsLine, MapsState, ensure_heap}
use blackbox_profiling.Functime.Trace.Laws.{PtraceLaws}
use blackbox_profiling.Functime.Trace.Restores.{on_exit-next, on_entry-next, on_init-next}

module _ {T : Type 0} (os : Ptrace T) (sscanf : List ℕ → Option MapsLine) where
  pub measured_entry-next :
      (g g' : Tracer) (t t' : T)
      → measured_entry os sscanf g t ≡ next g' t'
      → (m : MapsState) × (on_entry os (record g { maps = m }) t ≡ next g' t')
  unfolding measured_entry
  measured_entry-next g g' t t' h = elim (Option-cases (ensure_heap sscanf (os.maps t) g.maps)) [
    | inl e ↦ absurd (ground arith)
    | inr (m, e) ↦ (m, rw (e, measured_entry) at h)
  ]

  pub handle_init :
      (g : Tracer) (t : T)
      → g.stage ≡ tracee_init
      → handle_trace_event os sscanf g t ≡ on_init os g t
  unfolding handle_trace_event dispatch
  handle_init g t e = rw (e, dispatch)

  pub handle_entry :
      (g : Tracer) (t : T)
      → g.stage ≡ tracee_entry
      → handle_trace_event os sscanf g t ≡ measured_entry os sscanf g t
  unfolding handle_trace_event dispatch
  handle_entry g t e = rw (e, dispatch)

  pub handle_exit :
      (g : Tracer) (t : T)
      → g.stage ≡ tracee_exit
      → handle_trace_event os sscanf g t ≡ on_exit os g t
  unfolding handle_trace_event dispatch
  handle_exit g t e = rw (e, dispatch)

  module _ {IsText : ℕ → Type 0} (laws : PtraceLaws os IsText) where
    -- Three events that are handled, from the start of the program on, with both breakpoints set in
    -- its text, lead back to the first stage. Each word of the text, where the words in question do
    -- not overlap, is then what it was, whether or not the function returns to its own entry, and
    -- `samples` has grown by the unsigned difference of the two times.
    pub cycle_restores :
        (g0 g1 g2 g3 : Tracer) (t0 t1 t2 t3 : T) (a : ℕ)
        → g0.stage ≡ tracee_init
        → handle_trace_event os sscanf g0 t0 ≡ next g1 t1
        → handle_trace_event os sscanf g1 t1 ≡ next g2 t2
        → handle_trace_event os sscanf g2 t2 ≡ next g3 t3
        → g1.entry_data ≢ minus_one
        → g2.exit_data ≢ minus_one
        → IsText g0.entry_addr
        → IsText g2.exit_addr
        → IsText a
        → (g3.stage ≡ tracee_init)
          × (os.peektext t3 a ≡ os.peektext t0 a)
          × (g3.samples ≡ add_word g0.samples (sub_word (os.timing t2) g2.t_start))
    cycle_restores g0 g1 g2 g3 t0 t1 t2 t3 a e h1 h2 h3 n1 n2 text_entry text_exit text =
        let i1 = sym (handle_init g0 t0 e) ∙ h1 in
        let (s1, p1) = on_init-next os laws g0 g1 t0 t1 a text_entry text i1 n1 in
        let (_, q1) = on_init-next os laws g0 g1 t0 t1 g2.exit_addr text_entry text_exit i1 n1 in
        let st1 = ap (λ (x : Tracer). x.stage) s1 in
        let (m, i2) = measured_entry-next g1 g2 t1 t2 (sym (handle_entry g1 t1 st1) ∙ h2) in
        let (d2, p2, st2, sm2) =
          on_entry-next os laws (record g1 { maps = m }) g2 t1 t2 a
            (subst (λ (x : Tracer). IsText x.entry_addr) (sym s1) text_entry) text_exit text i2
            n2 in
        let (s3, p3) =
          on_exit-next os laws g2 g3 t2 t3 a text_exit text (sym (handle_exit g2 t2 st2) ∙ h3) in
        (
          ap (λ (x : Tracer). x.stage) s3,
          ground (arith, s1, p1, q1, d2, p2, p3),
          ground (arith, s1, sm2, s3),
        )
