-- ===== src/Elfie.antt =====
-- elf_manipulator/elfie.c: a profile becomes a new section of an ELF file. libelf and the calls on
-- files are an interface. `size_t` is taken to be as wide as the fields of GElf, 64 bits; malloc is
-- taken to succeed.
pub mod File
pub mod Offset
pub mod Names
pub mod Whole
pub mod Table
use blackbox_profiling.Base.{
  ℕ, if◌then◌else◌, ◌==◌, ltb, length, take, zero, suc, ◌+◌, ◌%◌, Bool, true, false, Option, none,
  some, List, [], ◌∷◌, ◌++◌,
}

abbrev pub size_word : ℕ
size_word = 18446744073709551616

abbrev pub add_size : ℕ → ℕ → ℕ
add_size a b = (a + b) % size_word

-- GElf_Shdr.
pub record Shdr : Type 0 where
  pub sh_name : ℕ
  pub sh_type : ℕ
  pub sh_flags : ℕ
  pub sh_addr : ℕ
  pub sh_offset : ℕ
  pub sh_size : ℕ
  pub sh_link : ℕ
  pub sh_info : ℕ
  pub sh_addralign : ℕ
  pub sh_entsize : ℕ

-- What the code reads of GElf_Ehdr.
pub record Ehdr : Type 0 where
  pub e_shoff : ℕ
  pub e_shnum : ℕ

-- NEW_SECTION_NAME, ".profile".
abbrev pub new_section_name : List ℕ
new_section_name = b'.' ∷ b'p' ∷ b'r' ∷ b'o' ∷ b'f' ∷ b'i' ∷ b'l' ∷ b'e' ∷ []

-- A section is known by its index. A call that can fail gives `none`, and `getscn` false. `setdata`
-- is the assignment of `d_buf` and `d_size`, the buffer as a list of bytes, and `flagdata` marks
-- the data as dirty.
pub record Libelf (E : Type 0) : Type 0 where
  pub getshdrstrndx : E → Option ℕ
  pub getscn : E → ℕ → Bool
  pub getdata : E → ℕ → Option (List ℕ)
  pub setdata : E → ℕ → List ℕ → E
  pub flagdata : E → ℕ → E
  pub getshdr : E → ℕ → Option Shdr
  pub update_shdr : E → ℕ → Shdr → Option E
  pub getehdr : E → Option Ehdr
  pub update_ehdr : E → Ehdr → Option E
  pub newscn : E → Option (ℕ × E)
  pub newdata : E → ℕ → Option E
  pub flagelf_layout : E → Option E
  pub flagelf_dirty : E → Option E
  pub elf_update : E → Option E
  pub elf_end : E → Bool

-- A function goes on with a value; the program ends with EXIT_FAILURE; or it reads memory that was
-- never set.
pub data Elfed (A : Type 0) : Type 0 where
  did : A → Elfed A
  exits reads_unset : Elfed A

abbrev pub or_exits : {A : Type 0} → Option A → Elfed A
or_exits none = exits
or_exits (some a) = did a

abbrev pub or_unset : {A : Type 0} → Option A → Elfed A
or_unset none = reads_unset
or_unset (some a) = did a

abbrev pub unless_exits : Bool → Elfed (Unit {0})
unless_exits true = did tt
unless_exits false = exits

infixl 20 ◌>>=◌
abbrev pub ◌>>=◌ : {A B : Type 0} → Elfed A → (A → Elfed B) → Elfed B
did a >>= k = k a
exits >>= k = exits
reads_unset >>= k = reads_unset

-- stat gives the size, and the file what fread finds in it.
unfoldable pub read_profile_file : Option ℕ → Option (List ℕ) → Elfed (List ℕ)
read_profile_file stat file = do
  sec_size ← or_exits stat
  content ← or_exits file
  let buf = take sec_size content
  _ ← unless_exits (length buf == sec_size)
  did buf

module _ {E : Type 0} (lib : Libelf E) where
  open lib use {
    getshdrstrndx, getscn, getdata, setdata, flagdata, getshdr, update_shdr, getehdr, update_ehdr,
    newscn, newdata,
  }

  -- The name, with a zero behind it, is put at the end of the names; its place is returned. The
  -- code does not look at the result of gelf_getshdr.
  unfoldable pub add_section_name : E → List ℕ → Elfed (ℕ × E)
  add_section_name elf new_section_name = do
    shstrndx ← or_exits (getshdrstrndx elf)
    _ ← unless_exits (getscn elf shstrndx)
    names ← or_exits (getdata elf shstrndx)
    let name_offset = length names
    let new_shstrtab_buf = names ++ (new_section_name ++ (0 ∷ []))
    let elf1 = flagdata (setdata elf shstrndx new_shstrtab_buf) shstrndx
    shdr ← or_unset (getshdr elf1 shstrndx)
    elf2 ← or_exits (update_shdr elf1 shstrndx (record shdr { sh_size = length new_shstrtab_buf }))
    did (name_offset, elf2)

  -- The loop over the sections: `last_sec_size` is not set before a section with an offset is met.
  pub last_section : E → ℕ → ℕ → ℕ → Option ℕ → Elfed ℕ
  last_section elf zero sec_idx last_sec_off last_sec_size =
      or_unset last_sec_size >>= (λ size. did (add_size last_sec_off size))
  last_section elf (suc rounds) sec_idx last_sec_off last_sec_size =
      unless_exits (getscn elf sec_idx) >>= (λ _. or_unset (getshdr elf sec_idx) >>= (λ shdr.
        if ltb last_sec_off shdr.sh_offset
        then last_section elf rounds (sec_idx + 1) shdr.sh_offset (some shdr.sh_size)
        else last_section elf rounds (sec_idx + 1) last_sec_off last_sec_size))

  unfoldable pub compute_section_offset : E → Elfed ℕ
  unfolding last_section
  compute_section_offset elf = do
    ehdr ← or_exits (getehdr elf)
    last_section elf ehdr.e_shnum 0 0 none

  -- strlen (NEW_SECTION_NAME) + 1 is 9.
  unfoldable pub adjust_sec_table_offset : E → ℕ → Elfed E
  adjust_sec_table_offset elf extra_offset = do
    ehdr ← or_exits (getehdr elf)
    or_exits (
        update_ehdr elf
          (record ehdr { e_shoff = add_size ehdr.e_shoff (add_size (add_size extra_offset 8) 1) }))

  unfoldable pub add_section_payload : E → List ℕ → Elfed (ℕ × E)
  add_section_payload elf profile_content = do
    (scn, elf1) ← or_exits (newscn elf)
    elf2 ← or_exits (newdata elf1 scn)
    did (scn, setdata elf2 scn profile_content)

  -- SHT_PROGBITS is 1 and SHN_UNDEF is 0.
  unfoldable pub update_section_header : E → ℕ → ℕ → ℕ → ℕ → Elfed E
  update_section_header elf scn profile_length name_offset section_offset = do
    shdr ← or_unset (getshdr elf scn)
    or_exits (
        update_shdr elf scn (record {
          sh_type = 1;
          sh_flags = 0;
          sh_addr = 0;
          sh_link = 0;
          sh_info = 0;
          sh_addralign = 1;
          sh_entsize = 0;
          sh_size = profile_length;
          sh_name = name_offset;
          sh_offset = section_offset;
        }))

  -- `opened` is open and elf_begin. The flag that says the file is dirty may fail, with a message.
  unfoldable pub add_profile_section : Option ℕ → Option (List ℕ) → Option E → Bool → Elfed E
  add_profile_section stat file opened closed = do
    profile_content ← read_profile_file stat file
    let profile_length = length profile_content
    elf ← or_exits opened
    elf0 ← or_exits (lib.flagelf_layout elf)
    (name_offset, elf1) ← add_section_name elf0 new_section_name
    section_offset ← compute_section_offset elf1
    (new_section, elf2) ← add_section_payload elf1 profile_content
    elf3 ← update_section_header elf2 new_section profile_length name_offset section_offset
    elf4 ← adjust_sec_table_offset elf3 profile_length
    let elf5 : E = elim (lib.flagelf_dirty elf4) [ none ↦ elf4 | some e ↦ e ]
    elf6 ← or_exits (lib.elf_update elf5)
    _ ← unless_exits (lib.elf_end elf6)
    _ ← unless_exits closed
    did elf6
