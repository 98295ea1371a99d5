-- ===== src/Functime/Symbols/Lookup.antt =====
-- The lookup against a list of names and values.
use blackbox_profiling.Base.{
  ℕ, if◌then◌else◌, Bool-cases, missed, length, word, ◌+◌, ◌/◌, ◌%◌, ◌<◌, ◌≡◌, refl, sym, inl, inr,
  true, some, List, [], ◌∷◌, arith,
}
use blackbox_profiling.Functime.Trace.{minus_one, arm_isa_mask}
use blackbox_profiling.Functime.Profile.{int_min}
use blackbox_profiling.Functime.Symbols.{
  symbol_count, SymShdr, resolved, Sym, find_symtab, resolve_symbol, scan_symbols, ElfSymbols,
  symbol_in,
}
use blackbox_profiling.Functime.Maps.{str_eq}

-- The value of the first symbol with a name, as an address, or -1.
abbrev pub lookup_symbol : List (List ℕ × ℕ) → List ℕ → ℕ
lookup_symbol [] target = minus_one
lookup_symbol (s ∷ ss) target =
    if str_eq s.0 target then arm_isa_mask (s.1 % word) else lookup_symbol ss target

-- The symbols of a section from the ii-th on.
abbrev pub SymbolsFrom : ElfSymbols → SymShdr → ℕ → List (List ℕ × ℕ) → Type 0
SymbolsFrom elf h ii [] = Unit {0}
SymbolsFrom elf h ii (s ∷ ss) =
    ((sym : Sym) × (elf.getsym h ii ≡ some sym)
      × (elf.strptr h.sh_link sym.st_name ≡ some s.0)
      × (sym.st_value ≡ s.1))
    × SymbolsFrom elf h (ii + 1) ss

scan_symbols-lookup_symbol :
    (elf : ElfSymbols) (target : List ℕ) (h : SymShdr) (ii : ℕ) (ss : List (List ℕ × ℕ))
    → SymbolsFrom elf h ii ss
    → scan_symbols elf target h (length ss) ii ≡ resolved (lookup_symbol ss target)
unfolding scan_symbols
scan_symbols-lookup_symbol elf target h ii [] from = refl
scan_symbols-lookup_symbol elf target h ii (s ∷ ss) from =
    let ((sym, got, named', value), rest) = from in
    elim (Bool-cases (str_eq s.0 target)) [
      | inl e ↦ rw (got, named', e, value, scan_symbols) refl
      | inr e ↦
          rw (got, named', e, scan_symbols)
            (scan_symbols-lookup_symbol elf target h (ii + 1) ss rest)
    ]

-- In a file that can be read, whose first table of symbols has the symbols `ss`, fewer than 2 ^ 31,
-- the result is the value of the first symbol with the name, as an address of 32 bits whose lowest
-- bit is clear, or -1 if no symbol has it.
pub resolve_symbol-lookup_symbol :
    (elf : ElfSymbols) (target : List ℕ) (h : SymShdr) (ss : List (List ℕ × ℕ))
    → find_symtab elf.shdrs ≡ some h
    → 0 < h.sh_entsize
    → h.sh_size / h.sh_entsize ≡ length ss
    → length ss < int_min
    → SymbolsFrom elf h 0 ss
    → resolve_symbol (some target) true (some elf) ≡ resolved (lookup_symbol ss target)
unfolding resolve_symbol symbol_in
resolve_symbol-lookup_symbol elf target h ss found' pos count small from =
    let rounds : symbol_count h ≡ length ss = ground (arith, count) in
    rw (found', missed h.sh_entsize 0 (omega arith), symbol_in, rounds)
      (scan_symbols-lookup_symbol elf target h 0 ss from)
