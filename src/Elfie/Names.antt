-- ===== src/Elfie/Names.antt =====
-- The names of the sections, as strings that end in a zero.
use blackbox_profiling.Base.{
  ℕ, if◌then◌else◌, ◌==◌, length, drop, zero, suc, ◌≤◌, ◌≡◌, refl, ap, ◌∙◌, List, [], ◌∷◌, ◌++◌,
  append_assoc, arith,
}
use blackbox_profiling.Elfie.{new_section_name}

-- The string at the start of some bytes.
abbrev pub c_string : List ℕ → List ℕ
c_string [] = []
c_string (c ∷ cs) = if c == 0 then [] else c ∷ c_string cs

-- The name that a descriptor's sh_name points to.
abbrev pub name_at : List ℕ → ℕ → List ℕ
name_at names sh_name = c_string (drop sh_name names)

-- The names behind the call, where the table held `names`.
abbrev pub names_then : List ℕ → List ℕ → List ℕ
names_then names new_section_name = names ++ (new_section_name ++ (0 ∷ []))

pub drop-length : (xs ys : List ℕ) → drop (length xs) (xs ++ ys) ≡ ys
drop-length [] ys = refl
drop-length (x ∷ xs) ys = drop-length xs ys

c_string-append : (xs ys : List ℕ) → c_string (xs ++ (0 ∷ ys)) ≡ c_string (xs ++ (0 ∷ []))
c_string-append [] ys = refl
c_string-append (x ∷ xs) ys = rw (c_string-append xs ys) refl

pub name_at-before :
    (xs ys : List ℕ) (i : ℕ)
    → i ≤ length xs
    → name_at (xs ++ (0 ∷ ys)) i ≡ name_at (xs ++ (0 ∷ [])) i
name_at-before xs ys zero h = c_string-append xs ys
name_at-before [] ys (suc i) h = absurd (omega arith)
name_at-before (x ∷ xs) ys (suc i) h = name_at-before xs ys i (omega arith)

pub profile_name_at :
    (names : List ℕ) → name_at (names_then names new_section_name) (length names) ≡ new_section_name
profile_name_at names = ap c_string (drop-length names (new_section_name ++ (0 ∷ []))) ∙ refl

-- Where the names end in a zero, the names that were there read as before.
pub old_name_at :
    (xs new' : List ℕ) (i : ℕ)
    → i ≤ length xs
    → name_at (names_then (xs ++ (0 ∷ [])) new') i ≡ name_at (xs ++ (0 ∷ [])) i
old_name_at xs new' i h =
    ap (λ l. name_at l i) (append_assoc xs (0 ∷ []) (new' ++ (0 ∷ []))) ∙ name_at-before xs _ i h
