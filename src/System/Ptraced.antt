-- ===== src/System/Ptraced.antt =====
-- ptrace on the machine: it has the laws of ptrace on the tracee, and changes nothing of the
-- kernel's side but by a run of the tracee.
use blackbox_profiling.Base.{
  leb, Bool-cases, ℕ, ◌+◌, ◌≡◌, refl, sym, ap, ◌∙◌, inl, inr, Option, none, some, some-injective,
  List,
}
use blackbox_profiling.BothMultiple.{heap_proc_write}
use blackbox_profiling.System.{
  served, Combined, on_machine, after_run, with_tracee, send_params, copy_of,
}
use blackbox_profiling.Linux.{Task, Arch, Gup}
use blackbox_profiling.FunctimeModule.Write.{written, WriteResult, undefined, efault}
use blackbox_profiling.Functime.Trace.{Ptrace, KernelParams}
use blackbox_profiling.Functime.Trace.Keeps.{Keeps, Untouched}
use blackbox_profiling.Functime.Trace.Laws.{PtraceLaws}
use blackbox_profiling.Functime.Trace.Handles.{Works}

module _ {T : Type 0} where
  with_tracee-some :
      (m m' : Combined T) (o : Option T)
      → with_tracee m o ≡ some m'
      → (t : T) × (o ≡ some t) × (m' ≡ record m { tracee = t })
  with_tracee-some m m' none e = cc
  with_tracee-some m m' (some t) e = (t, refl, sym (some-injective (record m { tracee = t }) m' e))

  pub after_run-some :
      (m m' : Combined T) (o : Option (T × List Task))
      → after_run m o ≡ some m'
      → (r : T × List Task) × (o ≡ some r) × (m' ≡ record m { tracee = r.0; tasks = r.1 })
  after_run-some m m' none e = cc
  after_run-some m m' (some (t, ts)) e =
      ((t, ts), refl, sym (some-injective (record m { tracee = t; tasks = ts }) m' e))

module _ {T : Type 0} (arch : Arch) (gup : Gup) (limit : ℕ)
    (run_on : T → List Task → Option (T × List Task)) (os : Ptrace T) where
  served-tracee : (r : WriteResult) (m : Combined T) → (served arch gup limit r m).tracee ≡ m.tracee
  served-tracee (written tasks log) m = refl
  served-tracee efault m = refl
  served-tracee undefined m = refl

  send_params-tracee :
      (m : Combined T) (p : KernelParams) → (send_params arch gup limit m p).tracee ≡ m.tracee
  unfolding send_params
  send_params-tracee m p = elim (Bool-cases (leb limit m.open_files)) [
    | inl full ↦ rw (full, send_params) refl
    | inr room ↦
        rw (room, send_params)
          (served-tracee (heap_proc_write arch gup (copy_of p) m.tasks m.log)
            (record m { open_files = m.open_files + 1 }))
  ]

  -- So what is proved of the profiler for any ptrace with the laws holds on the machine.
  pub on_machine-PtraceLaws :
      {IsText : ℕ → Type 0} (laws : PtraceLaws os IsText)
      → ((t : T) (ts : List Task) (r : T × List Task) (a : ℕ)
          → IsText a
          → run_on t ts ≡ some r
          → os.peektext r.0 a ≡ os.peektext t a)
      → PtraceLaws (on_machine arch gup limit run_on os) IsText
  on_machine-PtraceLaws laws text_kept = record {
    peek-poke_same = λ m m' a v e.
        let (t, f, s) = with_tracee-some m m' (os.poketext m.tracee a v) e in
        ap (λ (x : Combined T). os.peektext x.tracee a) s ∙ laws.peek-poke_same m.tracee t a v f;
    text_apart = laws.text_apart;
    peek-poke_other = λ m m' a b v e n.
        let (t, f, s) = with_tracee-some m m' (os.poketext m.tracee a v) e in
        ap (λ (x : Combined T). os.peektext x.tracee b) s
        ∙ laws.peek-poke_other m.tracee t a b v f n;
    getregs-poke = λ m m' a v e.
        let (t, f, s) = with_tracee-some m m' (os.poketext m.tracee a v) e in
        ap (λ (x : Combined T). os.getregs x.tracee) s ∙ laws.getregs-poke m.tracee t a v f;
    peek-setregs = λ m m' r a e.
        let (t, f, s) = with_tracee-some m m' (os.setregs m.tracee r) e in
        ap (λ (x : Combined T). os.peektext x.tracee a) s ∙ laws.peek-setregs m.tracee t r a f;
    getregs-setregs = λ m m' r e.
        let (t, f, s) = with_tracee-some m m' (os.setregs m.tracee r) e in
        ap (λ (x : Combined T). os.getregs x.tracee) s ∙ laws.getregs-setregs m.tracee t r f;
    peek-proc_write = λ m p a. ap (λ t. os.peektext t a) (send_params-tracee m p);
    getregs-proc_write = λ m p. ap os.getregs (send_params-tracee m p);
    peek-cont = λ m m' a text e.
        let (r, f, s) = after_run-some m m' (run_on m.tracee m.tasks) e in
        ap (λ (x : Combined T). os.peektext x.tracee a) s ∙ text_kept m.tracee m.tasks r a text f;
  }

  -- A view that does not depend on the tracee is kept while it stands.
  pub on_machine-Untouched :
      {X : Type 0} (view : Combined T → X)
      → ((m : Combined T) (t : T) → view (record m { tracee = t }) ≡ view m)
      → Untouched (on_machine arch gup limit run_on os) view
  on_machine-Untouched view any_tracee = record {
    poke_keeps = λ m m' a v e.
        let (t, _, s) = with_tracee-some m m' (os.poketext m.tracee a v) e in
        ap view s ∙ any_tracee m t;
    setregs_keeps = λ m m' r e.
        let (t, _, s) = with_tracee-some m m' (os.setregs m.tracee r) e in
        ap view s ∙ any_tracee m t;
  }

  -- A view that depends on neither the tracee nor the processes is kept.
  pub on_machine-Keeps :
      {X : Type 0} (view : Combined T → X)
      → ((m : Combined T) (t : T) → view (record m { tracee = t }) ≡ view m)
      → ((m : Combined T) (r : T × List Task)
          → run_on m.tracee m.tasks ≡ some r
          → view (record m { tasks = r.1 }) ≡ view m)
      → Keeps (on_machine arch gup limit run_on os) view
  on_machine-Keeps view any_tracee any_run = record {
    standing = on_machine-Untouched view any_tracee;
    cont_keeps = λ m m' e.
        let (r, f, s) = after_run-some m m' (run_on m.tracee m.tasks) e in
        ap view s ∙ any_tracee (record m { tasks = r.1 }) r.0 ∙ any_run m r f;
  }

  -- Where no request of ptrace to the tracee fails, and each run comes to a stop, none on the
  -- machine does.
  pub on_machine-Works :
      Works os
      → ((t : T) (ts : List Task) → (r : T × List Task) × (run_on t ts ≡ some r))
      → Works (on_machine arch gup limit run_on os)
  on_machine-Works works halts = record {
    poke_works = λ m a v. let (t, e) = works.poke_works m.tracee a v in (_, ap (with_tracee m) e);
    getregs_works = λ m. works.getregs_works m.tracee;
    setregs_works = λ m r. let (t, e) = works.setregs_works m.tracee r in (_, ap (with_tracee m) e);
    cont_works = λ m. let (r, e) = halts m.tracee m.tasks in (_, ap (after_run m) e);
  }
