-- ===== src/ElfManipulator/Again.antt =====
-- The search for the first section of a name, in a file that a run has added sections to.
use blackbox_profiling.Base.{
  ltb, Bool-cases, length, get_elem?, ℕ, zero, suc, ◌+◌, ◌≡◌, refl, ap, ◌∙◌, inl, inr, true, false,
  none, some, List, [], ◌∷◌, ◌++◌, append_assoc, arith,
}
use blackbox_profiling.ElfManipulator.{shn_loreserve}
use blackbox_profiling.Elfie.File.{change_at, length-change_at}
use blackbox_profiling.ElfManipulator.Update.{with_index, put_link}
use blackbox_profiling.ElfManipulator.Names.{
  more_names-before, more_names-profile, more_names-renamed,
}
use blackbox_profiling.ElfManipulator.Add.{more_names, made, rename, with_sections, parts_then}
use blackbox_profiling.ElfManipulator.Shape.{
  Sound, Part, behind_first, NamesIn, first_profile, is_profile, profile_of, Shape,
}

first_profile-none :
    (names : List ℕ) (i : ℕ) (p : Part) (ps : List Part)
    → first_profile names i (p ∷ ps) ≡ none
    → (is_profile names p ≡ false) × (first_profile names (suc i) ps ≡ none)
first_profile-none names i p ps h = elim (Bool-cases (is_profile names p)) [
  | inl hit ↦ let bad = rw hit at h in absurd (cc)
  | inr miss ↦ (miss, rw miss at h)
]

first_profile-append :
    (names : List ℕ) (i : ℕ) (ps : List Part) (p : Part) (more : List Part)
    → first_profile names i ps ≡ none
    → is_profile names p ≡ true
    → first_profile names i (ps ++ (p ∷ more)) ≡ some (i + length ps)
first_profile-append names i [] p more h hit = rw hit (ap some (omega arith))
first_profile-append names i (q ∷ ps) p more h hit =
    let (miss, rest) = first_profile-none names i q ps h in
    rw miss (first_profile-append names (suc i) ps p more rest hit ∙ ap some (omega arith))

-- The old sections have not the name in the new table either, with the old table renamed.
first_profile-old :
    (names xs : List ℕ) (i : ℕ) (ps : List Part)
    → names ≡ xs ++ (0 ∷ [])
    → NamesIn (length xs) ps
    → first_profile names i ps ≡ none
    → first_profile (more_names names) i ps ≡ none
first_profile-old names xs i [] last h gone = refl
first_profile-old names xs i (p ∷ ps) last h gone =
    let (miss, rest) = first_profile-none names i p ps gone in
    rw (more_names-before names xs p.header.sh_name last h.0, miss)
      (first_profile-old names xs (suc i) ps last h.1 rest)

first_profile-renamed :
    (names xs : List ℕ) (i k : ℕ) (ps : List Part)
    → names ≡ xs ++ (0 ∷ [])
    → NamesIn (length xs) ps
    → first_profile names i ps ≡ none
    → first_profile (more_names names) i (change_at k (rename (length names + 9)) ps) ≡ none
first_profile-renamed names xs i k [] last h gone = refl
first_profile-renamed names xs i zero (p ∷ ps) last h gone =
    rw (more_names-renamed names)
      (first_profile-old names xs (suc i) ps last h.1 (first_profile-none names i p ps gone).1)
first_profile-renamed names xs i (suc k) (p ∷ ps) last h gone =
    let (miss, rest) = first_profile-none names i p ps gone in
    rw (more_names-before names xs p.header.sh_name last h.0, miss)
      (first_profile-renamed names xs (suc i) k ps last h.1 rest)

made-is_profile :
    (names bytes : List ℕ) → is_profile (more_names names) (made 1 (length names) bytes) ≡ true
made-is_profile names bytes = rw (more_names-profile names) refl

first_profile-made :
    (names xs : List ℕ) (k : ℕ) (ps : List Part) (strs t : Part) (bytes : List ℕ)
    → names ≡ xs ++ (0 ∷ [])
    → NamesIn (length xs) ps
    → get_elem? ps k ≡ some strs
    → first_profile names 1 (behind_first ps) ≡ none
    → first_profile (more_names names) 1 (
        behind_first (
          (change_at k (rename (length names + 9)) ps ++ (made 1 (length names) bytes ∷ []))
          ++ (t ∷ [])))
      ≡ some (length ps)
first_profile-made names xs k [] strs t bytes last h at gone = cc
first_profile-made names xs zero (p ∷ ps) strs t bytes last h at gone =
    let m = made 1 (length names) bytes in
    ap (first_profile (more_names names) 1) (append_assoc ps (m ∷ []) (t ∷ []))
    ∙ first_profile-append (more_names names) 1 ps m (t ∷ [])
        (first_profile-old names xs 1 ps last h.1 gone) (made-is_profile names bytes)
    ∙ ap some (omega arith)
first_profile-made names xs (suc k) (p ∷ ps) strs t bytes last h at gone =
    let m = made 1 (length names) bytes in
    let ps1 = change_at k (rename (length names + 9)) ps in
    ap (first_profile (more_names names) 1) (append_assoc ps1 (m ∷ []) (t ∷ []))
    ∙ first_profile-append (more_names names) 1 ps1 m (t ∷ [])
        (first_profile-renamed names xs 1 k ps last h.1 gone) (made-is_profile names bytes)
    ∙ ap some (omega (arith, length-change_at k (rename (length names + 9)) ps))

behind_first-put_link :
    (n : ℕ) (ps : List Part) → behind_first (change_at 0 (put_link n) ps) ≡ behind_first ps
behind_first-put_link n [] = refl
behind_first-put_link n (p ∷ ps) = refl

behind_first-with_index :
    (n : ℕ) (v : Shape) → behind_first (with_index n v).parts ≡ behind_first v.parts
behind_first-with_index n v = elim (Bool-cases (ltb n shn_loreserve)) [
  | inl low ↦ rw low refl
  | inr high ↦ rw high (behind_first-put_link n v.parts)
]

-- The new section is the first of the name.
pub with_sections-first_profile :
    (v : Shape) (s : Sound v) (bytes : List ℕ)
    → profile_of v s ≡ none
    → first_profile (more_names s.strs.data') 1 (behind_first (with_sections v s bytes).parts)
      ≡ some (length v.parts)
with_sections-first_profile v s bytes gone =
    ap (first_profile (more_names s.strs.data') 1) (
      behind_first-with_index (length v.parts + 1)
        (record v { parts = parts_then v.parts s.index s.strs bytes }))
    ∙ first_profile-made s.strs.data' s.texts s.index v.parts s.strs
        (made 3 s.strs.header.sh_name (more_names s.strs.data')) bytes s.zero_last s.names_in
        s.there gone
