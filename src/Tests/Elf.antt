-- ===== src/Tests/Elf.antt =====
-- The theorems on the ELF file at a concrete one, with a libelf that works on the view itself.
use blackbox_profiling.Base.{
  ℕ, ltb, length, get_elem?, zero, suc, ◌+◌, ◌≤◌, ◌≡◌, refl, true, Option, none, some, List, [],
  ◌∷◌, ◌++◌, arith,
}
use blackbox_profiling.Elfie.{
  add_profile_section, add_section_name, did, new_section_name, Shdr, Libelf,
}
use blackbox_profiling.Elfie.Offset.{AtMost}
use blackbox_profiling.Elfie.Names.{name_at}
use blackbox_profiling.Elfie.File.{Section, ElfFile, LibelfLaws, put_data, put_shdr, change_at}
use blackbox_profiling.Elfie.Whole.{
  add_section_name-name_at, named, with_profile, add_profile_section_lem,
}
use blackbox_profiling.Elfie.Table.{add_profile_section-table}

abbrev section_of : ElfFile → ℕ → Option Section
section_of e i = get_elem? e.sections i

abbrev empty_shdr : Shdr
empty_shdr = record {
  sh_name = 0;
  sh_type = 0;
  sh_flags = 0;
  sh_addr = 0;
  sh_offset = 0;
  sh_size = 0;
  sh_link = 0;
  sh_info = 0;
  sh_addralign = 0;
  sh_entsize = 0;
}

abbrev empty_section : Section
empty_section = record { shdr = empty_shdr; data' = [] }

abbrev toy_libelf : Libelf ElfFile
toy_libelf = record {
  getshdrstrndx = λ e. some e.shstrndx;
  getscn = λ e i. ltb i (length e.sections);
  getdata = λ e i. elim (section_of e i) [ none ↦ none | some s ↦ some s.data' ];
  setdata = λ e i d. record e { sections = change_at i (put_data d) e.sections };
  flagdata = λ e i. e;
  getshdr = λ e i. elim (section_of e i) [ none ↦ none | some s ↦ some s.shdr ];
  update_shdr = λ e i h. some (record e { sections = change_at i (put_shdr h) e.sections });
  getehdr = λ e. some (record { e_shoff = e.e_shoff; e_shnum = length e.sections });
  update_ehdr = λ e h. some (record e { e_shoff = h.e_shoff });
  newscn =
      λ e. some (length e.sections, record e { sections = e.sections ++ (empty_section ∷ []) });
  newdata = λ e i. some e;
  flagelf_layout = λ e. some e;
  flagelf_dirty = λ e. some e;
  elf_update = λ e. some e;
  elf_end = λ e. true;
}

present_below :
    (ss : List Section) (i : ℕ) (s : Section) → get_elem? ss i ≡ some s → ltb i (length ss) ≡ true
present_below [] i s h = cc
present_below (t ∷ ss) zero s h = ground arith
present_below (t ∷ ss) (suc i) s h = ground (arith, present_below ss i s h)

toy_libelf_laws : LibelfLaws toy_libelf (λ e. e)
toy_libelf_laws = record {
  getshdrstrndx_law = λ e. refl;
  getscn_law = λ e i s h. present_below e.sections i s h;
  getdata_law = λ e i s h. rw (h, toy_libelf) refl;
  getshdr_law = λ e i s h. rw (h, toy_libelf) refl;
  getehdr_law = λ e. refl;
  setdata_new_law = λ e e1 i d h. refl;
  flagdata_law = λ e i d. refl;
  update_shdr_law = λ e i h s at. (_, refl, refl);
  update_ehdr_law = λ e h n. (_, refl, refl);
  newscn_law = λ e. (_, empty_section, refl, refl);
  newdata_law = λ e i. (_, refl, refl);
  flagelf_layout_law = λ e. (_, refl, refl);
  flagelf_dirty_law = λ e. (_, refl, refl);
  elf_update_law = λ e. (_, refl, refl);
  elf_end_law = λ e. refl;
}

-- The section at 64 holds two bytes; that of names is at 66, with the name "a"; the table of
-- section headers stands at 72.
abbrev code_section : Section
code_section = record {
  shdr = record empty_shdr { sh_offset = 64; sh_size = 2 };
  data' = 1 ∷ 2 ∷ [];
}

abbrev names_section : Section
names_section = record {
  shdr = record empty_shdr { sh_offset = 66; sh_size = 3 };
  data' = 0 ∷ b'a' ∷ 0 ∷ [];
}

abbrev toy_elf : ElfFile
toy_elf = record {
  shstrndx = 2;
  e_shoff = 72;
  sections = empty_section ∷ code_section ∷ names_section ∷ [];
}

add_profile_section_lem_example :
    (e' : ElfFile) × (k : ℕ) × (s : Section) × (get_elem?
        (empty_section ∷ code_section ∷ named names_section ∷ [])
        k
      ≡ some s)
    × AtMost s.shdr.sh_offset (empty_section ∷ code_section ∷ named names_section ∷ [])
    × (add_profile_section toy_libelf (some 2) (some (7 ∷ 8 ∷ [])) (some toy_elf) true ≡ did e')
    × (e' ≡ with_profile toy_elf names_section (7 ∷ 8 ∷ []) (s.shdr.sh_offset + s.shdr.sh_size))
add_profile_section_lem_example =
    add_profile_section_lem toy_libelf (λ e. e) toy_libelf_laws toy_elf names_section (7 ∷ 8 ∷ [])
      refl (omega arith) (omega arith)

add_section_name-name_at_example :
    (e' : ElfFile) × (sh_name : ℕ) × (names : List ℕ) × (add_section_name toy_libelf toy_elf
        new_section_name
      ≡ did (sh_name, e'))
    × (toy_libelf.getdata e' 2 ≡ some names)
    × (name_at names sh_name ≡ new_section_name)
    × (name_at names 1 ≡ b'a' ∷ [])
add_section_name-name_at_example =
    add_section_name-name_at toy_libelf (λ e. e) toy_libelf_laws toy_elf names_section
      (0 ∷ b'a' ∷ []) 1 refl refl (omega arith)

add_profile_section-table_example :
    (e' : ElfFile) × (t : Section) × (add_profile_section toy_libelf
        (some 2)
        (some (7 ∷ 8 ∷ []))
        (some toy_elf)
        true
      ≡ did e')
    × (get_elem? e'.sections 3 ≡ some t)
    × (t.data' ≡ 7 ∷ 8 ∷ [])
    × (t.shdr.sh_offset + t.shdr.sh_size ≤ e'.e_shoff)
add_profile_section-table_example =
    add_profile_section-table toy_libelf (λ e. e) toy_libelf_laws toy_elf names_section (7 ∷ 8 ∷ [])
      refl (omega arith) refl (omega arith) (omega arith) (omega arith)
