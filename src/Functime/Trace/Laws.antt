-- ===== src/Functime/Trace/Laws.antt =====
-- What the profiler relies on of ptrace, and what its own helpers do by that.
use blackbox_profiling.Base.{
  ℕ, ◌==◌, if◌then◌else◌, ◌≡◌, ◌≢◌, some, Bool-cases, Option-cases, inl, inr, arith, ◌+◌, ◌≤◌, ◌⊎◌,
}
use blackbox_profiling.Functime.Trace.{
  brkpoint_instr, set_pc, Regs, Ptrace, minus_one, set_breakpoint, KernelParams,
}

-- Two words of four bytes that do not overlap: ptrace addresses bytes.
abbrev pub Apart : ℕ → ℕ → Type 0
Apart a b = (a + 4 ≤ b) ⊎ (b + 4 ≤ a)

-- `IsText` points to addresses of the program text whose words do not overlap, such as those of the
-- 32-bit instructions. A poke changes the bytes of one word and no register; setting the registers
-- changes no word; a write to the kernel module changes neither. A tracee that runs on does not
-- change its program text, and breakpoints are planted by the profiler alone.
pub record PtraceLaws {T : Type 0} (os : Ptrace T) (IsText : ℕ → Type 0) : Type 0 where
  pub peek-poke_same : (t t' : T) (a v : ℕ) → os.poketext t a v ≡ some t' → os.peektext t' a ≡ v
  pub text_apart : (a b : ℕ) → IsText a → IsText b → a ≢ b → Apart a b
  pub peek-poke_other :
      (t t' : T) (a b v : ℕ)
      → os.poketext t a v ≡ some t'
      → Apart a b
      → os.peektext t' b ≡ os.peektext t b
  pub getregs-poke :
      (t t' : T) (a v : ℕ) → os.poketext t a v ≡ some t' → os.getregs t' ≡ os.getregs t
  pub peek-setregs :
      (t t' : T) (r : Regs) (a : ℕ) → os.setregs t r ≡ some t' → os.peektext t' a ≡ os.peektext t a
  pub getregs-setregs : (t t' : T) (r : Regs) → os.setregs t r ≡ some t' → os.getregs t' ≡ some r
  pub peek-proc_write :
      (t : T) (p : KernelParams) (a : ℕ) → os.peektext (os.proc_write t p) a ≡ os.peektext t a
  pub getregs-proc_write :
      (t : T) (p : KernelParams) → os.getregs (os.proc_write t p) ≡ os.getregs t
  pub peek-cont :
      (t t' : T) (a : ℕ) → IsText a → os.cont t ≡ some t' → os.peektext t' a ≡ os.peektext t a

module _ {T : Type 0} (os : Ptrace T) {IsText : ℕ → Type 0} (laws : PtraceLaws os IsText) where
  -- A poke into the text leaves its other words.
  pub peek-poke_text :
      (t t' : T) (a b v : ℕ)
      → IsText a
      → IsText b
      → os.poketext t a v ≡ some t'
      → a ≢ b
      → os.peektext t' b ≡ os.peektext t b
  peek-poke_text t t' a b v ta tb e n =
      laws.peek-poke_other t t' a b v e (laws.text_apart a b ta tb n)

  -- Where the word is not -1 and can be replaced, it is returned and the breakpoint stands there.
  pub set_breakpoint-peek :
      (t t' : T) (addr a data' : ℕ)
      → IsText addr
      → IsText a
      → set_breakpoint os t addr ≡ (data', t')
      → data' ≢ minus_one
      → (data' ≡ os.peektext t addr)
        × (os.peektext t' a ≡ (if a == addr then brkpoint_instr else os.peektext t a))
  unfolding set_breakpoint
  set_breakpoint-peek t t' addr a data' ta tb h n =
      elim (Bool-cases (os.peektext t addr == minus_one)) [
        | inl e ↦ absurd (ground arith)
        | inr e ↦ elim (Option-cases (os.poketext t addr brkpoint_instr)) [
          | inl f ↦ absurd (ground arith)
          | inr (u, f) ↦ ground (
            arith,
            laws.peek-poke_same t u addr brkpoint_instr f,
            peek-poke_text t u addr a brkpoint_instr ta tb f,
          )
        ]
      ]

  pub set_pc-peek :
      (t t' : T) (addr a : ℕ) → set_pc os t addr ≡ some t' → os.peektext t' a ≡ os.peektext t a
  unfolding set_pc
  set_pc-peek t t' addr a h = elim (Option-cases (os.getregs t)) [
    | inl e ↦ absurd (ground arith)
    | inr (r, e) ↦ laws.peek-setregs t t' (record r { pc = addr }) a (rw (e, set_pc) at h)
  ]

  pub set_pc-getregs :
      (t t' : T) (addr : ℕ)
      → set_pc os t addr ≡ some t'
      → (r : Regs) × (os.getregs t ≡ some r) × (os.getregs t' ≡ some (record r { pc = addr }))
  unfolding set_pc
  set_pc-getregs t t' addr h = elim (Option-cases (os.getregs t)) [
    | inl e ↦ absurd (ground arith)
    | inr (r, e) ↦ (r, e, laws.getregs-setregs t t' (record r { pc = addr }) (rw (e, set_pc) at h))
  ]
