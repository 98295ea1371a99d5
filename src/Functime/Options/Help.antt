-- ===== src/Functime/Options/Help.antt =====
-- Which options count.
use blackbox_profiling.Base.{
  ℕ, ◌==◌, if◌then◌else◌, ◌≡◌, refl, ◌≢◌, Option, none, some, List, [], ◌∷◌, missed, ap, ◌∙◌, arith,
}
use blackbox_profiling.Functime.Options.{
  no_settings, parse_options, Opt, parsed, Settings, set_option,
}

-- No option ends the loop.
abbrev pub NoStop : List Opt → Type 0
NoStop [] = Unit {0}
NoStop (o ∷ os) = (o.opt ≢ b'h') × (o.opt ≢ b'?') × NoStop os

-- The argument of the last option with a letter, or what was there before.
abbrev pub last_arg : ℕ → List Opt → Option (List ℕ) → Option (List ℕ)
last_arg c [] before = before
last_arg c (o ∷ os) before = last_arg c os (if o.opt == c then some o.optarg else before)

abbrev pub map_arg : (List ℕ → ℕ) → Option (List ℕ) → Option ℕ
map_arg f none = none
map_arg f (some a) = some (f a)

parse_options-from :
    (strtol : List ℕ → ℕ) (os : List Opt) (s : Settings) (n : Option (List ℕ))
    → NoStop os
    → s.sample_size ≡ map_arg strtol n
    → (s' : Settings) × (parse_options strtol os s ≡ parsed s')
      × (s'.symbol ≡ last_arg b's' os s.symbol)
      × (s'.sample_size ≡ map_arg strtol (last_arg b'n' os n))
unfolding parse_options
parse_options-from strtol [] s n h e = (s, refl, refl, e)
parse_options-from strtol (o ∷ os) s n h e =
    let s1 = set_option strtol o s in
    let n1 = if o.opt == b'n' then some o.optarg else n in
    let samples_set : s1.sample_size ≡ map_arg strtol n1 = ground (arith, e) in
    let symbol_set : s1.symbol ≡ (if o.opt == b's' then some o.optarg else s.symbol) =
      ground arith in
    let (s', done, symbol', samples') = parse_options-from strtol os s1 n1 h.2 samples_set in
    (
      s',
      rw (missed o.opt b'h' h.0, missed o.opt b'?' h.1, parse_options) done,
      symbol' ∙ ap (last_arg b's' os) symbol_set,
      samples',
    )

-- Where getopt reports neither -h nor an unknown option, the options are read to their end. The
-- symbol is the argument of the last -s, and the number of samples that of the last -n; without
-- one, each has no value.
pub parse_options_lem :
    (strtol : List ℕ → ℕ) (os : List Opt)
    → NoStop os
    → (s : Settings) × (parse_options strtol os no_settings ≡ parsed s)
      × (s.symbol ≡ last_arg b's' os none)
      × (s.sample_size ≡ map_arg strtol (last_arg b'n' os none))
parse_options_lem strtol os h = parse_options-from strtol os no_settings none h refl
