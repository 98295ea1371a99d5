-- ===== src/Tests/Sections.antt =====
-- The theorems on elf_manipulator.c at a concrete file, with a libelf that works on the view
-- itself.
use blackbox_profiling.Base.{
  get_elem?, length, ℕ, ◌≡◌, refl, true, false, Option, none, some, [], ◌∷◌, ◌++◌, map, arith,
}
use blackbox_profiling.ElfManipulator.{
  add_elf_sections, ElfLib, setshstrndx, went, ElfPath, is_profiled,
}
use blackbox_profiling.Elfie.{new_section_name, Shdr, Libelf}
use blackbox_profiling.Elfie.Names.{name_at}
use blackbox_profiling.Elfie.File.{change_at}
use blackbox_profiling.ElfManipulator.Update.{setshstrndx_lem, profile_file}
use blackbox_profiling.ElfManipulator.Whole.{add_elf_sections_lem, run, main_once}
use blackbox_profiling.ElfManipulator.Search.{is_profiled_lem}
use blackbox_profiling.ElfManipulator.Shape.{
  Part, put_header, names_index, Header, numbered, profile_of, Sound, ElfLibLaws, behind_first,
  put_bytes, Shape, header_of,
}

abbrev part_of : Shape → ℕ → Option Part
part_of e i = get_elem? e.parts i

abbrev shdr_with : Header → Shdr
shdr_with h = record {
  sh_name = h.sh_name;
  sh_type = h.sh_type;
  sh_flags = h.sh_flags;
  sh_addr = h.sh_addr;
  sh_offset = 0;
  sh_size = 0;
  sh_link = h.sh_link;
  sh_info = h.sh_info;
  sh_addralign = 0;
  sh_entsize = 0;
}

abbrev empty_header : Header
empty_header = record {
  sh_name = 0;
  sh_type = 0;
  sh_flags = 0;
  sh_addr = 0;
  sh_link = 0;
  sh_info = 0;
}

abbrev empty_part : Part
empty_part = record { header = empty_header; data' = [] }

abbrev shape_lib : Libelf Shape
shape_lib = record {
  getshdrstrndx = names_index;
  getscn = λ e i. elim (part_of e i) [ none ↦ false | some s ↦ true ];
  getdata = λ e i. elim (part_of e i) [ none ↦ none | some s ↦ some s.data' ];
  setdata = λ e i d. record e { parts = change_at i (put_bytes d) e.parts };
  flagdata = λ e i. e;
  getshdr = λ e i. elim (part_of e i) [ none ↦ none | some s ↦ some (shdr_with s.header) ];
  update_shdr = λ e i h. some (record e { parts = change_at i (put_header (header_of h)) e.parts });
  getehdr = λ e. none;
  update_ehdr = λ e h. none;
  newscn = λ e. some (length e.parts, record e { parts = e.parts ++ (empty_part ∷ []) });
  newdata = λ e i. some e;
  flagelf_layout = λ e. none;
  flagelf_dirty = λ e. none;
  elf_update = λ e. some e;
  elf_end = λ e. true;
}

abbrev toy_sections : ElfLib Shape
toy_sections = record {
  lib = shape_lib;
  nextscns = λ e. numbered 1 (behind_first e.parts);
  strptr = λ e i place. elim (part_of e i) [ none ↦ none | some s ↦ some (name_at s.data' place) ];
  shstrndx_of = λ e. some e.e_shstrndx;
  with_shstrndx = λ e n. some (record e { e_shstrndx = n });
  ndxscn_ended = λ e i. some i;
}

toy_sections_laws : ElfLibLaws toy_sections (λ e. e)
toy_sections_laws = record {
  getshdrstrndx_law = λ e i h. h;
  getscn_law = λ e i s h. rw (h, toy_sections, shape_lib) refl;
  getdata_law = λ e i s h. rw (h, toy_sections, shape_lib) refl;
  getshdr_law = λ e i s h. (shdr_with s.header, rw (h, toy_sections, shape_lib) refl, refl);
  setdata_new_law = λ e e1 i d h. refl;
  update_shdr_law = λ e i h s at. (_, refl, refl);
  newscn_law = λ e. (_, empty_part, refl, refl);
  newdata_law = λ e i. (_, refl, refl);
  elf_update_law = λ e. (_, refl, refl);
  elf_end_law = λ e. refl;
  nextscns_law = λ e. refl;
  strptr_law = λ e i s xs place at table last small. rw (at, toy_sections) refl;
  shstrndx_of_law = λ e. refl;
  with_shstrndx_law = λ e n small. (_, refl, refl);
}

-- Section 1 holds two bytes and has the name "a"; section 2 is the table of names.
abbrev code_part : Part
code_part = record { header = record empty_header { sh_name = 1; sh_type = 1 }; data' = 1 ∷ 2 ∷ [] }

abbrev names_part : Part
names_part = record { header = record empty_header { sh_type = 3 }; data' = 0 ∷ b'a' ∷ 0 ∷ [] }

abbrev toy_shape : Shape
toy_shape = record { e_shstrndx = 2; parts = empty_part ∷ code_part ∷ names_part ∷ [] }

abbrev toy_shape_Sound : Sound toy_shape
toy_shape_Sound = record {
  index = 2;
  strs = names_part;
  texts = 0 ∷ b'a' ∷ [];
  is_index = refl;
  there = refl;
  is_table = refl;
  zero_last = refl;
  names_in = omega arith;
}

-- A file that has the section already.
abbrev profile_names_part : Part
profile_names_part = record {
  header = record empty_header { sh_type = 3 };
  data' = 0 ∷ (new_section_name ++ (0 ∷ []));
}

abbrev profiled_shape : Shape
profiled_shape = record { e_shstrndx = 2; parts = empty_part ∷ code_part ∷ profile_names_part ∷ [] }

abbrev profiled_shape_Sound : Sound profiled_shape
profiled_shape_Sound = record {
  index = 2;
  strs = profile_names_part;
  texts = 0 ∷ new_section_name;
  is_index = refl;
  there = refl;
  is_table = refl;
  zero_last = refl;
  names_in = omega arith;
}

abbrev path_to : Shape → ElfPath Shape
path_to e = record { open_fd = some 3; elf_begin = λ _. some e; closes = true }

is_profiled_lem_example : is_profiled toy_sections (path_to profiled_shape) ≡ went 1
is_profiled_lem_example =
    is_profiled_lem toy_sections (λ e. e) toy_sections_laws (path_to profiled_shape) profiled_shape
      profiled_shape_Sound refl refl

setshstrndx_lem_example :
    (e' : Shape) × (setshstrndx toy_sections toy_shape 70000 ≡ some e')
    × (names_index e' ≡ some 70000)
    × (map (λ (q : Part). q.data') e'.parts ≡ [] ∷ (1 ∷ 2 ∷ []) ∷ (0 ∷ b'a' ∷ 0 ∷ []) ∷ [])
setshstrndx_lem_example =
    setshstrndx_lem toy_sections (λ e. e) toy_sections_laws toy_shape 70000 empty_part refl
      (omega arith)

add_elf_sections_lem_example :
    (e' : Shape) × (v' : Shape) × (s' : Sound v') × (q : Part) × (add_elf_sections toy_sections
        (path_to toy_shape)
        (profile_file (7 ∷ []))
      ≡ went e')
    × (e' ≡ v')
    × (profile_of v' s' ≡ some 3)
    × (toy_sections.lib.getdata e' 3 ≡ some (7 ∷ []))
    × (get_elem? v'.parts 1 ≡ some q)
    × (q.data' ≡ 1 ∷ 2 ∷ [])
    × (name_at s'.strs.data' q.header.sh_name ≡ b'a' ∷ [])
add_elf_sections_lem_example =
    add_elf_sections_lem toy_sections (λ e. e) toy_sections_laws (path_to toy_shape) toy_shape
      toy_shape_Sound (7 ∷ []) 1 code_part refl refl (omega arith) (omega arith) refl
      (λ h. omega (arith, h)) refl

main_once_example :
    (e1 : Shape) × (run toy_sections (λ e. e) toy_sections_laws (path_to toy_shape) (7 ∷ [])
      ≡ went (some e1))
    × (toy_sections.lib.getdata e1 3 ≡ some (7 ∷ []))
    × (is_profiled toy_sections (path_to e1) ≡ went 3)
main_once_example =
    main_once toy_sections (λ e. e) toy_sections_laws (path_to toy_shape) toy_shape toy_shape_Sound
      (7 ∷ []) refl refl (omega arith) (omega arith) refl
