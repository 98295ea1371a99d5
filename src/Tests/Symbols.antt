-- ===== src/Tests/Symbols.antt =====
-- The lookup of a symbol in a small table.
use blackbox_profiling.Base.{◌==◌, if◌then◌else◌, ◌≡◌, refl, true, some, [], ◌∷◌, arith}
use blackbox_profiling.Functime.Symbols.{SymShdr, resolved, resolve_symbol, ElfSymbols}
use blackbox_profiling.Functime.Symbols.Lookup.{resolve_symbol-lookup_symbol}

abbrev pub symtab : SymShdr
symtab = record { sh_type = 2; sh_size = 48; sh_entsize = 24; sh_link = 5 }

-- Two symbols, "f" at 4097 and "g" at 8192, whose names are at their own numbers.
abbrev pub toy_symbols : ElfSymbols
toy_symbols = record {
  shdrs = record { sh_type = 1; sh_size = 8; sh_entsize = 0; sh_link = 0 } ∷ symtab ∷ [];
  getsym = λ h i.
      if i == 0
      then some (record { st_name = 102; st_value = 4097 })
      else some (record { st_name = 103; st_value = 8192 });
  strptr = λ link name. some (name ∷ []);
}

resolve_symbol-lookup_symbol_example :
    resolve_symbol (some (102 ∷ [])) true (some toy_symbols) ≡ resolved 4096
resolve_symbol-lookup_symbol_example =
    resolve_symbol-lookup_symbol toy_symbols (102 ∷ []) symtab
      ((102 ∷ [], 4097) ∷ (103 ∷ [], 8192) ∷ []) refl (omega arith) refl (omega arith)
      ((_, refl, refl, refl), ((_, refl, refl, refl), tt))
