-- ===== src/Functime/Program.antt =====
-- main of functime_debugger/functime.c as a whole. The file that is opened for the results, the
-- options, the ELF file of the command, the process's own scheduling, qsort, and the run of the
-- tracee are parameters.
pub mod Whole
use blackbox_profiling.Base.{ℕ, leb, ◌==◌, if◌then◌else◌, Bool, Option, none, some, List}
use blackbox_profiling.Functime.Trace.{minus_one, Tracer}
use blackbox_profiling.Functime.Profile.{
  out_of_fuel, ran, ended_early, profile_mode, Laddered, Mode, ladder_mode, PageStats,
  divides_by_zero, overruns,
}
use blackbox_profiling.Functime.Symbols.{
  resolve_fault, resolve_symbol, Resolved, ElfSymbols, resolved,
}
use blackbox_profiling.Functime.Options.{
  Opt, Parsed, helped, no_settings, bad_option, parse_options, parsed, Settings,
}
use blackbox_profiling.Functime.Start.{set_realtime, parent_cpu}

-- What main finds when it starts: `argc` and `optind` behind the options, and the file named by the
-- first argument of the command. `garbage n` is the content of an array of n that is not set.
pub record Setting : Type 0 where
  pub output_opens : Bool
  pub options : List Opt
  pub argc : ℕ
  pub optind : ℕ
  pub elf_opens : Bool
  pub elf : Option ElfSymbols
  pub scheduled : Bool
  pub pinned : Bool
  pub garbage : ℕ → List ℕ

-- main goes on with a value; returns or exits with a code; or its behaviour is not defined.
pub data Main (A : Type 0) : Type 0 where
  goes_on : A → Main A
  main_returns : ℕ → Main A
  main_undefined : Main A

abbrev pub then_main : {A B : Type 0} → Main A → (A → Main B) → Main B
then_main (goes_on a) k = k a
then_main (main_returns c) k = main_returns c
then_main main_undefined k = main_undefined

-- EXIT_FAILURE is 1.
abbrev pub or_failure : {A : Type 0} → Option A → Main A
or_failure none = main_returns 1
or_failure (some a) = goes_on a

abbrev pub of_parsed : Parsed → Main Settings
of_parsed (parsed s) = goes_on s
of_parsed helped = main_returns 0
of_parsed bad_option = main_returns 1

abbrev pub of_resolved : Resolved → Main ℕ
of_resolved (resolved a) = if a == minus_one then main_returns 1 else goes_on a
of_resolved resolve_fault = main_undefined

-- A run that does not come back ends main with EXIT_FAILURE, or in a way that is not told apart
-- here.
abbrev pub of_mode : {A : Type 0} → Mode A → Main A
of_mode (ran a) = goes_on a
of_mode ended_early = main_returns 1
of_mode divides_by_zero = main_undefined
of_mode overruns = main_undefined
of_mode out_of_fuel = main_undefined

abbrev pub or_undefined : {A : Type 0} → Option A → Main A
or_undefined none = main_undefined
or_undefined (some a) = goes_on a

-- What the tests before the first mode lead to: the number of samples, and the tracer with its
-- breakpoint address.
unfoldable pub prepare : (List ℕ → ℕ) → Setting → Tracer → Main (ℕ × Tracer)
prepare strtol w g = then_main (if w.output_opens then goes_on tt else main_returns minus_one) (λ _.
    then_main (of_parsed (parse_options strtol w.options no_settings)) (λ s.
      then_main (or_failure s.symbol) (λ symbol.
        then_main (if leb w.argc w.optind then main_returns 1 else goes_on tt) (λ _.
          then_main (of_resolved (resolve_symbol (some symbol) w.elf_opens w.elf)) (λ addr.
            then_main (or_failure (set_realtime w.scheduled w.pinned 1 parent_cpu)) (λ _.
              then_main (or_undefined s.sample_size) (λ n. goes_on (
                n,
                record g {
                  entry_addr = addr;
                  params = record g.params { should_skip = s.should_skip };
                },
              ))))))))

-- Both modes. The first one has `fuel` rounds.
unfoldable pub main :
    {T : Type 0}
    → (List ℕ → ℕ)
    → (List PageStats → List PageStats)
    → (Tracer → T → Option (Tracer × T))
    → Setting
    → ℕ
    → Tracer
    → T
    → Main (Laddered T)
unfolding prepare
main strtol qsort trial w fuel g t = then_main (prepare strtol w g) (λ (n, g').
    then_main (of_mode (profile_mode trial fuel n g' t))
      (λ p. of_mode (ladder_mode trial qsort (w.garbage p.tracer.maps.heap_size) p)))
