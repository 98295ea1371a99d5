-- ===== src/ElfManipulator/Shape.antt =====
-- What elf_manipulator.c relies on of libelf, as a view of an ELF file that leaves out the places
-- and sizes of the sections, which elf_update sets anew.
use blackbox_profiling.Base.{
  ℕ, if◌then◌else◌, ◌==◌, length, get_elem?, suc, ◌≤◌, ◌<◌, ◌≡◌, Bool, true, Option, none, some,
  List, [], ◌∷◌, ◌++◌,
}
use blackbox_profiling.Elfie.Names.{name_at}
use blackbox_profiling.Functime.Maps.{str_eq}
use blackbox_profiling.ElfManipulator.{shn_xindex, ElfLib}
use blackbox_profiling.Elfie.{new_section_name, Shdr}
use blackbox_profiling.Elfie.File.{change_at}

-- The fields of GElf_Shdr in the view.
pub record Header : Type 0 where
  pub sh_name : ℕ
  pub sh_type : ℕ
  pub sh_flags : ℕ
  pub sh_addr : ℕ
  pub sh_link : ℕ
  pub sh_info : ℕ

pub record Part : Type 0 where
  pub header : Header
  pub data' : List ℕ

pub record Shape : Type 0 where
  pub e_shstrndx : ℕ
  pub parts : List Part

abbrev pub header_of : Shdr → Header
header_of h = record {
  sh_name = h.sh_name;
  sh_type = h.sh_type;
  sh_flags = h.sh_flags;
  sh_addr = h.sh_addr;
  sh_link = h.sh_link;
  sh_info = h.sh_info;
}

abbrev pub put_bytes : List ℕ → Part → Part
put_bytes d p = record p { data' = d }

abbrev pub put_header : Header → Part → Part
put_header h p = record p { header = h }

abbrev pub link_of : Option Part → Option ℕ
link_of none = none
link_of (some p) = some p.header.sh_link

-- The index of the section of names, which the descriptor of section 0 has where e_shstrndx is
-- SHN_XINDEX.
abbrev pub names_index : Shape → Option ℕ
names_index v =
    if v.e_shstrndx == shn_xindex then link_of (get_elem? v.parts 0) else some v.e_shstrndx

-- The indices from `i` on.
abbrev pub numbered : ℕ → List Part → List ℕ
numbered i [] = []
numbered i (p ∷ ps) = i ∷ numbered (suc i) ps

abbrev pub behind_first : List Part → List Part
behind_first [] = []
behind_first (p ∷ ps) = ps

-- Each call on a section names one that is there. A new section comes last, with a descriptor and
-- data of no known content; elf_nextscn passes over section 0.
pub record ElfLibLaws {E : Type 0} (elf : ElfLib E) (view : E → Shape) : Type 0 where
  pub getshdrstrndx_law :
      (e : E) (i : ℕ) → names_index (view e) ≡ some i → elf.lib.getshdrstrndx e ≡ some i
  pub getscn_law :
      (e : E) (i : ℕ) (s : Part) → get_elem? (view e).parts i ≡ some s → elf.lib.getscn e i ≡ true
  pub getdata_law :
      (e : E) (i : ℕ) (s : Part)
      → get_elem? (view e).parts i ≡ some s
      → elf.lib.getdata e i ≡ some s.data'
  pub getshdr_law :
      (e : E) (i : ℕ) (s : Part)
      → get_elem? (view e).parts i ≡ some s
      → (h : Shdr) × (elf.lib.getshdr e i ≡ some h) × (header_of h ≡ s.header)
  -- Data that elf_newdata made is written as it is; other data has to be marked as dirty.
  pub setdata_new_law :
      (e e1 : E) (i : ℕ) (d : List ℕ)
      → elf.lib.newdata e i ≡ some e1
      → view (elf.lib.setdata e1 i d)
        ≡ record (view e1) { parts = change_at i (put_bytes d) (view e1).parts }
  pub update_shdr_law :
      (e : E) (i : ℕ) (h : Shdr) (s : Part)
      → get_elem? (view e).parts i ≡ some s
      → (e' : E) × (elf.lib.update_shdr e i h ≡ some e')
        × (view e'
            ≡ record (view e) { parts = change_at i (put_header (header_of h)) (view e).parts })
  pub newscn_law :
      (e : E)
      → (e' : E) × (s : Part) × (elf.lib.newscn e ≡ some (length (view e).parts, e'))
        × (view e' ≡ record (view e) { parts = (view e).parts ++ (s ∷ []) })
  pub newdata_law :
      (e : E) (i : ℕ) → (e' : E) × (elf.lib.newdata e i ≡ some e') × (view e' ≡ view e)
  pub elf_update_law : (e : E) → (e' : E) × (elf.lib.elf_update e ≡ some e') × (view e' ≡ view e)
  pub elf_end_law : (e : E) → elf.lib.elf_end e ≡ true
  pub nextscns_law : (e : E) → elf.nextscns e ≡ numbered 1 (behind_first (view e).parts)
  pub strptr_law :
      (e : E) (i : ℕ) (s : Part) (xs : List ℕ) (place : ℕ)
      → get_elem? (view e).parts i ≡ some s
      → s.header.sh_type ≡ 3
      → s.data' ≡ xs ++ (0 ∷ [])
      → place ≤ length xs
      → elf.strptr e i place ≡ some (name_at s.data' place)
  pub shstrndx_of_law : (e : E) → elf.shstrndx_of e ≡ some (view e).e_shstrndx
  pub with_shstrndx_law :
      (e : E) (n : ℕ)
      → n < 65536
      → (e' : E) × (elf.with_shstrndx e n ≡ some e')
        × (view e' ≡ record (view e) { e_shstrndx = n })

-- Every name is a place in a table of `m` bytes.
abbrev pub NamesIn : ℕ → List Part → Type 0
NamesIn m [] = Unit {0}
NamesIn m (p ∷ ps) = (p.header.sh_name ≤ m) × NamesIn m ps

-- A file whose names can be read: `strs` at `index` is a table of strings that ends in a zero.
pub record Sound (v : Shape) : Type 0 where
  pub index : ℕ
  pub strs : Part
  pub texts : List ℕ
  pub is_index : names_index v ≡ some index
  pub there : get_elem? v.parts index ≡ some strs
  pub is_table : strs.header.sh_type ≡ 3
  pub zero_last : strs.data' ≡ texts ++ (0 ∷ [])
  pub names_in : NamesIn (length texts) v.parts

abbrev pub is_profile : List ℕ → Part → Bool
is_profile names p = str_eq (name_at names p.header.sh_name) new_section_name

-- The first section of the name ".profile", where `i` is the index of the first one in the list.
abbrev pub first_profile : List ℕ → ℕ → List Part → Option ℕ
first_profile names i [] = none
first_profile names i (p ∷ ps) =
    if is_profile names p then some i else first_profile names (suc i) ps

-- The first section of the name behind section 0.
abbrev pub profile_of : (v : Shape) → Sound v → Option ℕ
profile_of v s = first_profile s.strs.data' 1 (behind_first v.parts)
