-- ===== src/Functime/Trace/Plants.antt =====
-- What stands in the text of the tracee between two events.
use blackbox_profiling.Base.{
  ℕ, ◌==◌, if◌then◌else◌, ◌≡◌, ◌≢◌, Option-cases, sym, ◌∙◌, subst, inl, inr, Option, List, arith,
}
use blackbox_profiling.Functime.Trace.{
  on_init, set_breakpoint, brkpoint_instr, minus_one, tracee_exit, tracee_init, Tracer, next,
  tracee_entry, on_entry, Stage, Ptrace, on_exit, handle_trace_event,
}
use blackbox_profiling.Functime.Trace.Laws.{PtraceLaws}
use blackbox_profiling.Functime.Maps.{MapsLine}
use blackbox_profiling.Functime.Trace.Handles.{Stage-cases}
use blackbox_profiling.Functime.Trace.Cycle.{
  handle_entry, measured_entry-next, handle_init, handle_exit,
}
use blackbox_profiling.Functime.Trace.Restores.{on_exit-next, on_init-next, on_entry-next}

-- The text in a stage, where it was `orig` before the first breakpoint.
abbrev pub planted : Stage → ℕ → ℕ → (ℕ → ℕ) → ℕ → ℕ
planted tracee_init entry exit orig a = orig a
planted tracee_entry entry exit orig a = if a == entry then brkpoint_instr else orig a
planted tracee_exit entry exit orig a = if a == exit then brkpoint_instr else orig a

-- The breakpoint of the stage and no other is planted, and the word that it hides is kept.
pub record Planted {T : Type 0} (os : Ptrace T) (IsText : ℕ → Type 0) (orig : ℕ → ℕ) (g : Tracer)
    (t : T) : Type 0 where
  pub text : (a : ℕ) → IsText a → os.peektext t a ≡ planted g.stage g.entry_addr g.exit_addr orig a
  pub entry_text : IsText g.entry_addr
  pub entry_kept : g.stage ≡ tracee_entry → g.entry_data ≡ orig g.entry_addr
  pub exit_text : g.stage ≡ tracee_exit → IsText g.exit_addr
  pub exit_kept : g.stage ≡ tracee_exit → g.exit_data ≡ orig g.exit_addr

-- What set_breakpoint reported for the stage that begins, and that it was asked for a word of the
-- text.
pub record PlantedNow (IsText : ℕ → Type 0) (g : Tracer) : Type 0 where
  pub at_entry : g.stage ≡ tracee_entry → g.entry_data ≢ minus_one
  pub at_exit : g.stage ≡ tracee_exit → g.exit_data ≢ minus_one
  pub returns_to : g.stage ≡ tracee_exit → IsText g.exit_addr

module _ {T : Type 0} (os : Ptrace T) where
  on_init-fields :
      (g g' : Tracer) (t t' : T)
      → on_init os g t ≡ next g' t'
      → (g'.stage ≡ tracee_entry) × (g'.entry_addr ≡ g.entry_addr)
  unfolding on_init
  on_init-fields g g' t t' h = elim (Option-cases (os.cont (set_breakpoint os t g.entry_addr).1)) [
    | inl e ↦ absurd (ground (arith, h, e))
    | inr (u, e) ↦ (ground (arith, h, e), ground (arith, h, e))
  ]

  on_entry-fields :
      (g g' : Tracer) (t t' : T)
      → on_entry os g t ≡ next g' t'
      → (g'.stage ≡ tracee_exit) × (g'.entry_addr ≡ g.entry_addr)
  unfolding on_entry
  on_entry-fields g g' t t' h = (ground (arith, h), ground (arith, h))

module _ {T : Type 0} (os : Ptrace T) {IsText : ℕ → Type 0} (laws : PtraceLaws os IsText)
    {orig : ℕ → ℕ} where
  on_init-Planted :
      (g g' : Tracer) (t t' : T)
      → g.stage ≡ tracee_init
      → Planted os IsText orig g t
      → PlantedNow IsText g'
      → on_init os g t ≡ next g' t'
      → Planted os IsText orig g' t'
  on_init-Planted g g' t t' s p now h =
      let unlike = now.at_entry (on_init-fields os g g' t t' h).0 in
      let step =
        λ (a : ℕ) (is : IsText a). on_init-next os laws g g' t t' a p.entry_text is h unlike in
      let same = (step g.entry_addr p.entry_text).0 in
      record {
        text = λ a is. ground (arith, same, (step a is).1, p.text a is, s);
        entry_text = subst (λ (x : Tracer). IsText x.entry_addr) (sym same) p.entry_text;
        entry_kept = λ _. ground (arith, same, p.text g.entry_addr p.entry_text, s);
        exit_text = λ e. absurd (ground (arith, e, same));
        exit_kept = λ e. absurd (ground (arith, e, same));
      }

  on_entry-Planted :
      (g g' : Tracer) (t t' : T)
      → g.stage ≡ tracee_entry
      → Planted os IsText orig g t
      → PlantedNow IsText g'
      → on_entry os g t ≡ next g' t'
      → Planted os IsText orig g' t'
  on_entry-Planted g g' t t' s p now h =
      let (stage', same_entry) = on_entry-fields os g g' t t' h in
      let is_exit = now.returns_to stage' in
      let step = λ (a : ℕ) (is : IsText a).
        on_entry-next os laws g g' t t' a p.entry_text is_exit is h (now.at_exit stage') in
      let hidden = (step g'.exit_addr is_exit).0 in
      record {
        text = λ a is. ground (arith, stage', (step a is).1, p.text a is, p.entry_kept s, s);
        entry_text = subst IsText (sym same_entry) p.entry_text;
        entry_kept = λ e. absurd (ground (arith, e, stage'));
        exit_text = λ _. is_exit;
        exit_kept = λ _. ground (arith, hidden, p.text g'.exit_addr is_exit, p.entry_kept s, s);
      }

  on_exit-Planted :
      (g g' : Tracer) (t t' : T)
      → g.stage ≡ tracee_exit
      → Planted os IsText orig g t
      → on_exit os g t ≡ next g' t'
      → Planted os IsText orig g' t'
  on_exit-Planted g g' t t' s p h =
      let step = λ (a : ℕ) (is : IsText a). on_exit-next os laws g g' t t' a (p.exit_text s) is h in
      let same = (step g.entry_addr p.entry_text).0 in
      record {
        text = λ a is. ground (arith, same, (step a is).1, p.text a is, p.exit_kept s, s);
        entry_text = subst (λ (x : Tracer). IsText x.entry_addr) (sym same) p.entry_text;
        entry_kept = λ e. absurd (ground (arith, e, same));
        exit_text = λ e. absurd (ground (arith, e, same));
        exit_kept = λ e. absurd (ground (arith, e, same));
      }

  -- Where the words of the text in question do not overlap, an event of any stage that is handled,
  -- with the breakpoint that it sets in the text, keeps it so that the text of the tracee is the
  -- original one, but for the breakpoint of the stage, whose hidden word the profiler has: none
  -- before the first event, then that at the entry, then that at the return address, and none
  -- again.
  pub handle_trace_event-Planted :
      (sscanf : List ℕ → Option MapsLine) (g g' : Tracer) (t t' : T)
      → Planted os IsText orig g t
      → PlantedNow IsText g'
      → handle_trace_event os sscanf g t ≡ next g' t'
      → Planted os IsText orig g' t'
  handle_trace_event-Planted sscanf g g' t t' p now h = elim (Stage-cases g.stage) [
    | inl s ↦
        let (m, i) =
          measured_entry-next os sscanf g g' t t' (sym (handle_entry os sscanf g t s) ∙ h) in
        on_entry-Planted (record g { maps = m }) g' t t' s
          (record {
            text = p.text;
            entry_text = p.entry_text;
            entry_kept = p.entry_kept;
            exit_text = p.exit_text;
            exit_kept = p.exit_kept;
          })
          now i
    | inr (inl s) ↦ on_exit-Planted g g' t t' s p (sym (handle_exit os sscanf g t s) ∙ h)
    | inr (inr s) ↦ on_init-Planted g g' t t' s p now (sym (handle_init os sscanf g t s) ∙ h)
  ]
