-- ===== src/ElfManipulator.antt =====
-- elf_manipulator/elf_manipulator.c: the profile goes into the section .profile of an ELF file,
-- which is made where there is none. libelf and the calls on files are an interface, as in Elfie;
-- the fields of GElf are 64 bits wide, but for sh_name and sh_link, which have 32 bits, and
-- e_shstrndx. malloc is taken to succeed.
pub mod Shape
pub mod Search
pub mod Update
pub mod Add
pub mod Names
pub mod Again
pub mod Whole
use blackbox_profiling.Base.{
  ℕ, if◌then◌else◌, ◌==◌, ltb, leb, length, take, ◌+◌, ◌%◌, Bool, true, false, Option, none, some,
  List, [], ◌∷◌, ◌++◌, found,
}
use blackbox_profiling.Elfie.{Libelf, Shdr, new_section_name}
use blackbox_profiling.Functime.Maps.{str_eq}

-- The calls of libelf that elfie.c has not. `nextscns` has the sections that elf_nextscn gives one
-- after another, `shstrndx_of` and `with_shstrndx` are gelf_getehdr and gelf_update_ehdr for the
-- field e_shstrndx, and `ndxscn_ended` is what elf_ndxscn reads of a section behind elf_end, where
-- the memory is still there.
pub record ElfLib (E : Type 0) : Type 0 where
  pub lib : Libelf E
  pub nextscns : E → List ℕ
  pub strptr : E → ℕ → ℕ → Option (List ℕ)
  pub shstrndx_of : E → Option ℕ
  pub with_shstrndx : E → ℕ → Option E
  pub ndxscn_ended : E → ℕ → Option ℕ

-- The calls on a path: `open`, of which elf_begin takes the result as it is, and `close`.
pub record ElfPath (E : Type 0) : Type 0 where
  pub open_fd : Option ℕ
  pub elf_begin : Option ℕ → Option E
  pub closes : Bool

-- The file with the profile, for `stat` and for `fread`.
pub record ProfileFile : Type 0 where
  pub st_size : Option ℕ
  pub content : Option (List ℕ)

-- A function goes on; the program exits with a status; or it reads what was never set, or is gone.
pub data Ran (A : Type 0) : Type 0 where
  went : A → Ran A
  exit_with : ℕ → Ran A
  reads_junk : Ran A

abbrev pub or_exit : {A : Type 0} → ℕ → Option A → Ran A
or_exit status none = exit_with status
or_exit status (some a) = went a

abbrev pub or_junk : {A : Type 0} → Option A → Ran A
or_junk none = reads_junk
or_junk (some a) = went a

abbrev pub check_or_exit : ℕ → Bool → Ran (Unit {0})
check_or_exit status true = went tt
check_or_exit status false = exit_with status

infixl 20 ◌>>=◌
abbrev pub ◌>>=◌ : {A B : Type 0} → Ran A → (A → Ran B) → Ran B
went a >>= k = k a
exit_with n >>= k = exit_with n
reads_junk >>= k = reads_junk

-- The status of exit (-1).
abbrev pub minus_one : ℕ
minus_one = 255

abbrev pub word32 : ℕ
word32 = 4294967296

-- SHN_LORESERVE and SHN_XINDEX.
abbrev pub shn_loreserve : ℕ
shn_loreserve = 65280

abbrev pub shn_xindex : ℕ
shn_xindex = 65535

abbrev pub old_shstrtab_name : List ℕ
old_shstrtab_name =
    b'.' ∷ b'o' ∷ b'l' ∷ b'd' ∷ b'_' ∷ b's' ∷ b'h' ∷ b's' ∷ b't' ∷ b'r' ∷ b't' ∷ b'a' ∷ b'b' ∷ []

-- What is read short of the size stays unset in the buffer.
unfoldable pub read_file : ProfileFile → Ran (List ℕ)
read_file f = do
  sec_size ← or_junk f.st_size
  content ← or_junk f.content
  if leb sec_size (length content) then went (take sec_size content) else reads_junk

module _ {E : Type 0} (elf : ElfLib E) where
  open elf.lib use {getshdrstrndx, getscn, getdata, setdata, getshdr, update_shdr, newscn, newdata}

  -- `fd < 0` compares the pointer, so that a file that is not open goes to elf_begin.
  unfoldable pub preparation : ElfPath E → Ran (E × ℕ)
  preparation path = do
    e ← or_exit 1 (path.elf_begin path.open_fd)
    shstrndx ← or_exit minus_one (getshdrstrndx e)
    went (e, shstrndx)

  unfoldable pub farewell : ElfPath E → E → Ran (Unit {0})
  farewell path e = do _ ← check_or_exit 1 (elf.lib.elf_end e); check_or_exit 1 path.closes

  -- The loop: a header that cannot be read leaves `shdr` as it was, after a message.
  pub search_profile : E → ℕ → List ℕ → Option Shdr → Ran (Option ℕ)
  search_profile e shstrndx [] shdr = went none
  search_profile e shstrndx (scn ∷ scns) shdr =
      let read : Option Shdr = elim (getshdr e scn) [ none ↦ shdr | some h ↦ some h ] in
      or_junk read >>= (λ h. or_junk (elf.strptr e shstrndx h.sh_name) >>= (λ name.
        if str_eq name new_section_name
        then went (some scn)
        else search_profile e shstrndx scns (some h)))

  -- The index is read of the section behind elf_end.
  unfoldable pub return_index : ElfPath E → E → Option ℕ → Ran ℕ
  return_index path e none = went 0
  return_index path e (some scn) = do _ ← farewell path e; or_junk (elf.ndxscn_ended e scn)

  unfoldable pub is_profiled : ElfPath E → Ran ℕ
  unfolding search_profile
  is_profiled path = do
    (e, shstrndx) ← preparation path
    found ← search_profile e shstrndx (elf.nextscns e) none
    return_index path e found

  unfoldable pub update_profile : ElfPath E → ProfileFile → ℕ → Ran E
  update_profile path profile profile_scndx = do
    (e, shstrndx) ← preparation path
    _ ← check_or_exit 1 (getscn e profile_scndx)
    old ← or_exit 1 (getdata e profile_scndx)
    shdr ← or_exit minus_one (getshdr e profile_scndx)
    buf ← read_file profile
    let e1 = setdata e profile_scndx buf
    e2 ← or_exit 1 (update_shdr e1 profile_scndx (record shdr { sh_size = length buf }))
    e3 ← or_exit 1 (elf.lib.elf_update e2)
    _ ← farewell path e3
    went e3

  -- `none` is -1.
  unfoldable pub setshstrndx : E → ℕ → Option E
  setshstrndx e ndx = elim (elf.shstrndx_of e) [
    | none ↦ none
    | some old ↦ if ltb ndx shn_loreserve then elf.with_shstrndx e ndx else elim (getshdr e 0) [
      | none ↦ none
      | some zshdr ↦ elim (update_shdr e 0 (record zshdr { sh_link = ndx % word32 })) [
        | none ↦ none
        | some e1 ↦ elf.with_shstrndx e1 shn_xindex
      ]
    ]
  ]

  -- The steps that add a section with a buffer, a type and a name; .profile is made by them, and
  -- then the new table of names.
  unfoldable pub add_section : E → List ℕ → ℕ → ℕ → Ran (ℕ × E)
  add_section e buf sh_type sh_name = do
    (scn, e1) ← or_exit 1 (newscn e)
    e2 ← or_exit 1 (newdata e1 scn)
    let e3 = setdata e2 scn buf
    shdr ← or_exit 1 (getshdr e3 scn)
    e4 ← or_exit 1 (
        update_shdr e3 scn (record shdr {
          sh_type = sh_type;
          sh_flags = 0;
          sh_addr = 0;
          sh_link = 0;
          sh_info = 0;
          sh_addralign = 1;
          sh_entsize = 0;
          sh_size = length buf;
          sh_name = sh_name % word32;
        }))
    went (scn, e4)

  -- SHT_PROGBITS is 1, SHT_STRTAB is 3, and strlen (".profile") + 1 is 9.
  unfoldable pub add_elf_sections : ElfPath E → ProfileFile → Ran E
  add_elf_sections path profile = do
    (e, _) ← preparation path
    shstrndx ← or_exit minus_one (getshdrstrndx e)
    _ ← check_or_exit 1 (getscn e shstrndx)
    names ← or_exit 1 (getdata e shstrndx)
    let extra_idx = length names
    let old_shstrtab_idx = extra_idx + 9
    let new_shstrtab_buf = names ++ (new_section_name ++ (0 ∷ (old_shstrtab_name ++ (0 ∷ []))))
    shdr ← or_exit minus_one (getshdr e shstrndx)
    let shstrtab_idx = shdr.sh_name
    e1 ←
        or_exit minus_one
          (update_shdr e shstrndx (record shdr { sh_name = old_shstrtab_idx % word32 }))
    buf ← read_file profile
    (_, e2) ← add_section e1 buf 1 extra_idx
    (new_shstrndx, e3) ← add_section e2 new_shstrtab_buf 3 shstrtab_idx
    e4 ← or_exit 1 (setshstrndx e3 new_shstrndx)
    e5 ← or_exit 1 (elf.lib.elf_update e4)
    _ ← farewell path e5
    went e5

  -- The file behind the run, if it was written. With one word, argv[2] is behind the array.
  unfoldable pub main :
      (List ℕ → ElfPath E) → (List ℕ → ProfileFile) → List (List ℕ) → Ran (Option E)
  main paths profiles (_ ∷ elf_file ∷ profile ∷ _) = do
    profile_scndx ← is_profiled (paths elf_file)
    elf_written ←
        if profile_scndx == 0
        then add_elf_sections (paths elf_file) (profiles profile)
        else update_profile (paths elf_file) (profiles profile) profile_scndx
    went (some elf_written)
  main paths profiles (_ ∷ elf_file ∷ []) = went none
  main paths profiles (_ ∷ []) = reads_junk
  main paths profiles [] = reads_junk
