-- ===== src/Functime/Symbols.antt =====
-- resolve_symbol of functime_debugger/functime.c: the address of a symbol in an ELF file. What
-- libelf reads of the file is a parameter.
pub mod Lookup
use blackbox_profiling.Base.{
  ℕ, ◌==◌, if◌then◌else◌, ltb, word, zero, suc, ◌+◌, ◌/◌, ◌%◌, sym, Bool, Option, none, some, List,
  [], ◌∷◌,
}
use blackbox_profiling.Functime.Trace.{minus_one, arm_isa_mask}
use blackbox_profiling.Functime.Profile.{int_min}
use blackbox_profiling.Functime.Maps.{str_eq}

-- What the code reads of GElf_Sym, and of the GElf_Shdr of a section with symbols.
pub record Sym : Type 0 where
  pub st_name : ℕ
  pub st_value : ℕ

pub record SymShdr : Type 0 where
  pub sh_type : ℕ
  pub sh_size : ℕ
  pub sh_entsize : ℕ
  pub sh_link : ℕ

-- The descriptors in the order of elf_nextscn; the symbols of the section with a descriptor, by
-- gelf_getsym; and elf_strptr, by a section and an offset. `none` is a null result.
pub record ElfSymbols : Type 0 where
  pub shdrs : List SymShdr
  pub getsym : SymShdr → ℕ → Option Sym
  pub strptr : ℕ → ℕ → Option (List ℕ)

-- The pointer that is returned; or a division by 0, or a read of memory that was never set.
pub data Resolved : Type 0 where
  resolved : ℕ → Resolved
  resolve_fault : Resolved

-- SHT_SYMTAB is 2.
abbrev pub find_symtab : List SymShdr → Option SymShdr
find_symtab [] = none
find_symtab (h ∷ hs) = if h.sh_type == 2 then some h else find_symtab hs

-- The number of symbols, an `int`.
abbrev pub symbol_count : SymShdr → ℕ
symbol_count h =
    let count = h.sh_size / h.sh_entsize % word in if ltb count int_min then count else 0

module _ (elf : ElfSymbols) (symbol_to_search : List ℕ) where
  -- The loop over the symbols. A pointer has 32 bits.
  pub scan_symbols : SymShdr → ℕ → ℕ → Resolved
  scan_symbols h zero ii = resolved minus_one
  scan_symbols h (suc rounds) ii = elim (elf.getsym h ii) [
    | none ↦ resolve_fault
    | some sym ↦ elim (elf.strptr h.sh_link sym.st_name) [
      | none ↦ resolve_fault
      | some symbol_name ↦
          if str_eq symbol_name symbol_to_search
          then resolved (arm_isa_mask (sym.st_value % word))
          else scan_symbols h rounds (ii + 1)
    ]
  ]

  unfoldable pub symbol_in : Resolved
  unfolding scan_symbols
  symbol_in = elim (find_symtab elf.shdrs) [
    | none ↦ resolved minus_one
    | some h ↦ if h.sh_entsize == 0 then resolve_fault else scan_symbols h (symbol_count h) 0
  ]

-- The two strings are not null pointers. `opened` says whether `open` succeeds, and `elf` is what
-- elf_begin gives.
unfoldable pub resolve_symbol : Option (List ℕ) → Bool → Option ElfSymbols → Resolved
unfolding symbol_in
resolve_symbol none opened elf = resolved minus_one
resolve_symbol (some symbol_to_search) opened none = resolved minus_one
resolve_symbol (some symbol_to_search) opened (some elf) =
    if opened then symbol_in elf symbol_to_search else resolved minus_one
