-- ===== src/Functime/Trace/Restores.antt =====
-- The three stages of a measurement, and that they leave the program text as it was.
use blackbox_profiling.Base.{
  ℕ, if◌then◌else◌, ◌==◌, Option-cases, ◌≡◌, refl, ◌≢◌, inl, inr, arith, sub_word, add_word, sym,
  ap, ◌∙◌, subst,
}
use blackbox_profiling.Functime.Trace.{
  Tracer, on_init, tracee_entry, Ptrace, brkpoint_instr, set_breakpoint, next, minus_one, get_lr,
  tracee_init, set_pc, on_exit, on_entry, arm_isa_mask, tracee_exit,
}
use blackbox_profiling.Functime.Trace.Laws.{
  PtraceLaws, set_breakpoint-peek, set_pc-peek, peek-poke_text,
}

pub next_injective : {T : Type 0} (g h : Tracer) (t u : T) → next g t ≡ next h u → (g ≡ h) × (t ≡ u)
next_injective g h t u e = (cc, cc)

module _ {T : Type 0} (os : Ptrace T) {IsText : ℕ → Type 0} (laws : PtraceLaws os IsText) where
  -- The first stage, where the breakpoint could be set.
  pub on_init-next :
      (g g' : Tracer) (t t' : T) (a : ℕ)
      → IsText g.entry_addr
      → IsText a
      → on_init os g t ≡ next g' t'
      → g'.entry_data ≢ minus_one
      → (g' ≡ record g { entry_data = os.peektext t g.entry_addr; stage = tracee_entry })
        × (os.peektext t' a ≡ (if a == g.entry_addr then brkpoint_instr else os.peektext t a))
  unfolding on_init
  on_init-next g g' t t' a te text h n =
      elim (Option-cases (os.cont (set_breakpoint os t g.entry_addr).1)) [
        | inl e ↦ absurd (ground arith)
        | inr (u, e) ↦
            let (same_g, same_t) =
              next_injective
                (record g {
                  entry_data = (set_breakpoint os t g.entry_addr).0;
                  stage = tracee_entry;
                })
                g' u t' (rw (e, on_init) at h) in
            let (old, now) =
              set_breakpoint-peek os laws t (set_breakpoint os t g.entry_addr).1 g.entry_addr a
                (set_breakpoint os t g.entry_addr).0 te text refl
                (λ q. n (ap (λ (x : Tracer). x.entry_data) (sym same_g) ∙ q)) in
            let kept = laws.peek-cont (set_breakpoint os t g.entry_addr).1 u a text e in
            (sym same_g ∙ rw old, ap (λ x. os.peektext x a) (sym same_t) ∙ kept ∙ now)
      ]

  -- The second stage, where the second breakpoint could be set: the instruction at the entry is put
  -- back before the one at the return address is read.
  pub on_entry-next :
      (g g' : Tracer) (t t' : T) (a : ℕ)
      → IsText g.entry_addr
      → IsText g'.exit_addr
      → IsText a
      → on_entry os g t ≡ next g' t'
      → g'.exit_data ≢ minus_one
      → (g'.exit_data
          ≡ (if g'.exit_addr == g.entry_addr then g.entry_data else os.peektext t g'.exit_addr))
        × (os.peektext t' a ≡ (
            if a == g'.exit_addr
            then brkpoint_instr
            else if a == g.entry_addr
            then g.entry_data
            else os.peektext t a))
        × (g'.stage ≡ tracee_exit)
        × (g'.samples ≡ g.samples)
  unfolding on_entry
  on_entry-next g g' t t' a te tx text h n =
      let t0 = os.proc_write t (record g.params { pid = g.tracee_pid }) in
      elim (Option-cases (os.poketext t0 g.entry_addr g.entry_data)) [
        | inl e ↦ absurd (ground arith)
        | inr (t1, e1) ↦ elim (Option-cases (set_pc os t1 g.entry_addr)) [
          | inl e ↦ absurd (ground arith)
          | inr (t2, e2) ↦
              let exit = arm_isa_mask (get_lr os t2) in
              elim (Option-cases (os.cont (set_breakpoint os t2 exit).1)) [
                | inl e ↦ absurd (ground arith)
                | inr (t4, e4) ↦
                    let (same_g, same_t) =
                      next_injective _ g' t4 t' (rw (e1, e2, e4, on_entry) at h) in
                    let same_data = ap (λ (x : Tracer). x.exit_data) same_g in
                    let same_addr = ap (λ (x : Tracer). x.exit_addr) same_g in
                    let tx' : IsText exit = subst IsText (sym same_addr) tx in
                    let (old, now) =
                      set_breakpoint-peek os laws t2 (set_breakpoint os t2 exit).1 exit a
                        (set_breakpoint os t2 exit).0 tx' text refl (λ q. n (sym same_data ∙ q)) in
                    (
                      ground (
                        arith,
                        same_data,
                        same_addr,
                        old,
                        set_pc-peek os laws t1 t2 g.entry_addr exit e2,
                        laws.peek-poke_same t0 t1 g.entry_addr g.entry_data e1,
                        peek-poke_text os laws t0 t1 g.entry_addr exit g.entry_data te tx' e1,
                        laws.peek-proc_write t (record g.params { pid = g.tracee_pid }) exit,
                      ),
                      ground (
                        arith,
                        same_addr,
                        now,
                        same_t,
                        laws.peek-cont (set_breakpoint os t2 exit).1 t4 a text e4,
                        set_pc-peek os laws t1 t2 g.entry_addr a e2,
                        laws.peek-poke_same t0 t1 g.entry_addr g.entry_data e1,
                        peek-poke_text os laws t0 t1 g.entry_addr a g.entry_data te text e1,
                        laws.peek-proc_write t (record g.params { pid = g.tracee_pid }) a,
                      ),
                      ap (λ (x : Tracer). x.stage) (sym same_g),
                      ap (λ (x : Tracer). x.samples) (sym same_g),
                    )
              ]
        ]
      ]

  pub on_exit-next :
      (g g' : Tracer) (t t' : T) (a : ℕ)
      → IsText g.exit_addr
      → IsText a
      → on_exit os g t ≡ next g' t'
      → (g' ≡ record g {
        t_end = os.timing t;
        samples = add_word g.samples (sub_word (os.timing t) g.t_start);
        stage = tracee_init;
      })
        × (os.peektext t' a ≡ (if a == g.exit_addr then g.exit_data else os.peektext t a))
  unfolding on_exit
  on_exit-next g g' t t' a tx text h = elim (Option-cases (os.poketext t g.exit_addr g.exit_data)) [
    | inl e ↦ absurd (ground arith)
    | inr (t1, e1) ↦ elim (Option-cases (set_pc os t1 g.exit_addr)) [
      | inl e ↦ absurd (ground arith)
      | inr (t2, e2) ↦ elim (Option-cases (os.cont t2)) [
        | inl e ↦ absurd (ground arith)
        | inr (t3, e3) ↦ ground (
          arith,
          laws.peek-cont t2 t3 a text e3,
          set_pc-peek os laws t1 t2 g.exit_addr a e2,
          laws.peek-poke_same t t1 g.exit_addr g.exit_data e1,
          peek-poke_text os laws t t1 g.exit_addr a g.exit_data tx text e1,
        )
      ]
    ]
  ]
