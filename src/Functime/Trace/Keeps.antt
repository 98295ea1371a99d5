-- ===== src/Functime/Trace/Keeps.antt =====
-- What a trace event leaves as it is, but for the request at the entry.
use blackbox_profiling.Base.{
  ◌==◌, Option-cases, Bool-cases, ℕ, ◌≡◌, refl, sym, ap, ◌∙◌, inl, inr, some, arith, sub_word,
  add_word,
}
use blackbox_profiling.Functime.Trace.{
  minus_one, set_pc, on_init, Regs, arm_isa_mask, set_breakpoint, on_exit, brkpoint_instr, Ptrace,
  on_entry, next, get_lr, Tracer, tracee_exit,
}
use blackbox_profiling.Functime.Trace.Restores.{next_injective}

-- A view of the tracee that no request of ptrace changes while the tracee stands.
pub record Untouched {T X : Type 0} (os : Ptrace T) (view : T → X) : Type 0 where
  pub poke_keeps : (t t' : T) (a v : ℕ) → os.poketext t a v ≡ some t' → view t' ≡ view t
  pub setregs_keeps : (t t' : T) (r : Regs) → os.setregs t r ≡ some t' → view t' ≡ view t

-- Nor does a run of the tracee change it.
pub record Keeps {T X : Type 0} (os : Ptrace T) (view : T → X) : Type 0 where
  pub standing : Untouched os view
  pub cont_keeps : (t t' : T) → os.cont t ≡ some t' → view t' ≡ view t

module _ {T X : Type 0} (os : Ptrace T) {view : T → X} (untouched : Untouched os view) where
  set_breakpoint-keeps : (t : T) (a : ℕ) → view (set_breakpoint os t a).1 ≡ view t
  unfolding set_breakpoint
  set_breakpoint-keeps t a = elim (Bool-cases (os.peektext t a == minus_one)) [
    | inl e ↦ rw (e, set_breakpoint) refl
    | inr e ↦ elim (Option-cases (os.poketext t a brkpoint_instr)) [
      | inl f ↦ rw (e, f, set_breakpoint) refl
      | inr (u, f) ↦ rw (e, f, set_breakpoint) (untouched.poke_keeps t u a brkpoint_instr f)
    ]
  ]

  set_pc-keeps : (t t' : T) (a : ℕ) → set_pc os t a ≡ some t' → view t' ≡ view t
  unfolding set_pc
  set_pc-keeps t t' a h = elim (Option-cases (os.getregs t)) [
    | inl e ↦ absurd (ground arith)
    | inr (r, e) ↦ untouched.setregs_keeps t t' (record r { pc = a }) (rw (e, set_pc) at h)
  ]

  -- The request comes first, and is all that changes the view before the tracee is resumed; the
  -- start of the time is read in the state from which it is.
  pub on_entry-resumes :
      (g g' : Tracer) (t t' : T)
      → on_entry os g t ≡ next g' t'
      → (t3 : T) × (os.cont t3 ≡ some t')
        × (view t3 ≡ view (os.proc_write t (record g.params { pid = g.tracee_pid })))
        × (g'.t_start ≡ os.timing t3)
        × (g'.samples ≡ g.samples)
        × (g'.stage ≡ tracee_exit)
  unfolding on_entry
  on_entry-resumes g g' t t' h =
      let t0 = os.proc_write t (record g.params { pid = g.tracee_pid }) in
      elim (Option-cases (os.poketext t0 g.entry_addr g.entry_data)) [
        | inl e ↦ absurd (ground arith)
        | inr (t1, e1) ↦ elim (Option-cases (set_pc os t1 g.entry_addr)) [
          | inl e ↦ absurd (ground arith)
          | inr (t2, e2) ↦
              let exit = arm_isa_mask (get_lr os t2) in
              let t3 = (set_breakpoint os t2 exit).1 in
              elim (Option-cases (os.cont t3)) [
                | inl e ↦ absurd (ground arith)
                | inr (t4, e4) ↦
                    let (same_g, same_t) =
                      next_injective _ g' t4 t' (rw (e1, e2, e4, on_entry) at h) in
                    (
                      t3,
                      e4 ∙ ap some same_t,
                      set_breakpoint-keeps t2 exit
                          ∙ set_pc-keeps t1 t2 g.entry_addr e2
                          ∙ untouched.poke_keeps t0 t1 g.entry_addr g.entry_data e1,
                      ap (λ (x : Tracer). x.t_start) (sym same_g),
                      ap (λ (x : Tracer). x.samples) (sym same_g),
                      ap (λ (x : Tracer). x.stage) (sym same_g),
                    )
              ]
        ]
      ]

module _ {T X : Type 0} (os : Ptrace T) {view : T → X} (keeps : Keeps os view) where
  pub on_init-keeps : (g g' : Tracer) (t t' : T) → on_init os g t ≡ next g' t' → view t' ≡ view t
  unfolding on_init
  on_init-keeps g g' t t' h = elim (Option-cases (os.cont (set_breakpoint os t g.entry_addr).1)) [
    | inl e ↦ absurd (ground arith)
    | inr (u, e) ↦
        ap view (sym (next_injective _ g' u t' (rw (e, on_init) at h)).1)
        ∙ keeps.cont_keeps (set_breakpoint os t g.entry_addr).1 u e
        ∙ set_breakpoint-keeps os keeps.standing t g.entry_addr
  ]

  pub on_exit-keeps : (g g' : Tracer) (t t' : T) → on_exit os g t ≡ next g' t' → view t' ≡ view t
  unfolding on_exit
  on_exit-keeps g g' t t' h = elim (Option-cases (os.poketext t g.exit_addr g.exit_data)) [
    | inl e ↦ absurd (ground arith)
    | inr (t1, e1) ↦ elim (Option-cases (set_pc os t1 g.exit_addr)) [
      | inl e ↦ absurd (ground arith)
      | inr (t2, e2) ↦ elim (Option-cases (os.cont t2)) [
        | inl e ↦ absurd (ground arith)
        | inr (t3, e3) ↦
            ap view (sym (next_injective _ g' t3 t' (rw (e1, e2, e3, on_exit) at h)).1)
            ∙ keeps.cont_keeps t2 t3 e3
            ∙ set_pc-keeps os keeps.standing t1 t2 g.exit_addr e2
            ∙ keeps.standing.poke_keeps t t1 g.exit_addr g.exit_data e1
      ]
    ]
  ]

  -- The request is all that changes the view.
  pub on_entry-keeps :
      (g g' : Tracer) (t t' : T)
      → on_entry os g t ≡ next g' t'
      → view t' ≡ view (os.proc_write t (record g.params { pid = g.tracee_pid }))
  on_entry-keeps g g' t t' h =
      let (t3, resumed, asked, _, _, _) = on_entry-resumes os keeps.standing g g' t t' h in
      keeps.cont_keeps t3 t' resumed ∙ asked

-- The end of the time is read first.
pub on_exit-counts :
    {T : Type 0} (os : Ptrace T) (g g' : Tracer) (t t' : T)
    → on_exit os g t ≡ next g' t'
    → g'.samples ≡ add_word g.samples (sub_word (os.timing t) g.t_start)
unfolding on_exit
on_exit-counts os g g' t t' h = elim (Option-cases (os.poketext t g.exit_addr g.exit_data)) [
  | inl e ↦ absurd (ground arith)
  | inr (t1, e1) ↦ elim (Option-cases (set_pc os t1 g.exit_addr)) [
    | inl e ↦ absurd (ground arith)
    | inr (t2, e2) ↦ elim (Option-cases (os.cont t2)) [
      | inl e ↦ absurd (ground arith)
      | inr (t3, e3) ↦
          ap (λ (x : Tracer). x.samples)
            (sym (next_injective _ g' t3 t' (rw (e1, e2, e3, on_exit) at h)).0)
    ]
  ]
]
