-- ===== src/Functime/Options.antt =====
-- The options of main in functime_debugger/functime.c. getopt is a parameter: `Opt` is one of its
-- results, with `optarg`. So is strtol, whose result is a 32-bit pattern.
pub mod Help
use blackbox_profiling.Base.{
  ℕ, ◌==◌, if◌then◌else◌, Bool, false, not, Option, none, some, List, [], ◌∷◌,
}
use blackbox_profiling.Functime.Trace.{minus_one}
use blackbox_profiling.Functime.Maps.{str_eq}

pub record Opt : Type 0 where
  pub opt : ℕ
  pub optarg : List ℕ

-- What the options set. `sample_size` has no value before -n is met.
pub record Settings : Type 0 where
  pub symbol : Option (List ℕ)
  pub size : ℕ
  pub should_skip : Bool
  pub sample_size : Option ℕ
  pub e_value : ℕ

-- The globals are 0 when the program starts, and `e_value` is -1.
abbrev pub no_settings : Settings
no_settings = record {
  symbol = none;
  size = 0;
  should_skip = false;
  sample_size = none;
  e_value = minus_one;
}

-- "profile" and "run".
abbrev pub profile_text : List ℕ
profile_text = b'p' ∷ b'r' ∷ b'o' ∷ b'f' ∷ b'i' ∷ b'l' ∷ b'e' ∷ []

abbrev pub run_text : List ℕ
run_text = b'r' ∷ b'u' ∷ b'n' ∷ []

abbrev pub mode_size : List ℕ → ℕ → ℕ
mode_size mode size =
    if str_eq profile_text mode then 1 else if str_eq run_text mode then 10 else size

-- The loop goes on, or main returns EXIT_SUCCESS for the help or EXIT_FAILURE.
pub data Parsed : Type 0 where
  parsed : Settings → Parsed
  helped bad_option : Parsed

module _ (strtol : List ℕ → ℕ) where
  -- One option that does not end the loop. An option without a case is passed over, ':' too, by
  -- which getopt reports that an argument is missing.
  abbrev pub set_option : Opt → Settings → Settings
  set_option o s =
      if o.opt == b'm'
      then record s { size = mode_size o.optarg s.size }
      else if o.opt == b'n'
      then record s { sample_size = some (strtol o.optarg) }
      else if o.opt == b'c'
      then record s { should_skip = not (strtol o.optarg == 0) }
      else if o.opt == b's'
      then record s { symbol = some o.optarg }
      else if o.opt == b'e'
      then record s { e_value = strtol o.optarg }
      else s

  pub parse_options : List Opt → Settings → Parsed
  parse_options [] s = parsed s
  parse_options (o ∷ os) s =
      let rest = parse_options os (set_option o s) in
      if o.opt == b'h' then helped else if o.opt == b'?' then bad_option else rest
