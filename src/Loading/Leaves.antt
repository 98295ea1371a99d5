-- ===== src/Loading/Leaves.antt =====
-- What is left behind after a load and an unload.
use blackbox_profiling.Base.{
  ℕ, ◌≡◌, ◌≢◌, Bool, true, false, Option, none, some, arith, Bool-cases, refl, inl, inr,
}
use blackbox_profiling.Loading.{
  mm_exp_unload, mm_exp_load, Loaded, load_returns, hello_unload, no_value, hello_load,
}

-- Nothing of the module is there.
abbrev pub unloaded : Loaded
unloaded = record { counters = false; pl310_area = none; proc_entry = false }

-- A load that returns 0 has made the entry, and the mapping is not null. An unload then takes the
-- entry away, and leaves the mapping and the counters.
pub mm_exp_load-mm_exp_unload :
    (ioremap : Option ℕ) (proc_create : Bool) (s : Loaded)
    → mm_exp_load ioremap proc_create unloaded ≡ load_returns 0 s
    → (s.proc_entry ≡ true)
      × (ioremap ≢ none)
      × (mm_exp_unload s ≡ record { counters = true; pl310_area = ioremap; proc_entry = false })
unfolding mm_exp_load mm_exp_unload
mm_exp_load-mm_exp_unload none b s e = absurd (ground (arith, e))
mm_exp_load-mm_exp_unload (some a) true s e = (ground (arith, e), λ n. cc, ground (arith, e))
mm_exp_load-mm_exp_unload (some a) false s e = absurd (ground (arith, e))

-- The modules for "hello" leave their entry, with its handler, in /proc. As long as proc_create
-- makes no entry of a name that is there, such a module that is loaded again has none, and returns
-- no value.
pub hello_load-hello_unload :
    (proc_create : Loaded → Bool) (s s' : Loaded)
    → ((t : Loaded) → t.proc_entry ≡ true → proc_create t ≡ false)
    → hello_load (proc_create s) s ≡ load_returns 0 s'
    → (l : Loaded) × ((hello_unload s').proc_entry ≡ true)
      × (hello_load (proc_create (hello_unload s')) (hello_unload s') ≡ no_value l)
      × (l.proc_entry ≡ false)
unfolding hello_load hello_unload
hello_load-hello_unload proc_create s s' taken e = elim (Bool-cases (proc_create s)) [
  | inl made_entry ↦
      let e' = rw made_entry at e in
      let there : s'.proc_entry ≡ true = ground (arith, e') in
      (record s' { counters = true; proc_entry = false }, there, rw (taken s' there) refl, refl)
  | inr not_made ↦ let e' = rw not_made at e in absurd (ground (arith, e'))
]
