-- ===== src/Hello/Buffer.antt =====
-- What the loops leave in the buffer.
use blackbox_profiling.Base.{
  ℕ, ltb, ◌==◌, if◌then◌else◌, update, zero, suc, ◌+◌, ◌*◌, ◌%◌, ◌<◌, ◌≡◌, refl, ◌∙◌, ◌&&◌, arith,
  ap, subst, Bool, true, false,
}
use blackbox_profiling.Hello.{steps, fill_all, char_of, fill_buf}

fill_buf-below : (n c i a : ℕ) (buf : ℕ → ℕ) → a < c → fill_buf n c i buf a ≡ buf a
unfolding fill_buf
fill_buf-below zero c i a buf h = refl
fill_buf-below (suc n) c i a buf h =
    let first = if c % 5 == 0 then update buf c (char_of c) else buf in
    fill_buf-below n (c + 32) i a (update first c (char_of i)) (omega (arith, h))
    ∙ ground (arith, h)

-- The j-th cell that is written, and what stands r places behind it. The write of the index is
-- always written over.
fill_buf-at :
    (n c i j r : ℕ) (buf : ℕ → ℕ)
    → r < 32
    → let a = c + j * 32 + r in
      fill_buf n c i buf a ≡ (if r == 0 && ltb j n then char_of i else buf a)
unfolding fill_buf
fill_buf-at zero c i j r buf h = ground (arith, h)
fill_buf-at (suc n) c i zero r buf h =
    let first = if c % 5 == 0 then update buf c (char_of c) else buf in
    fill_buf-below n (c + 32) i (c + zero * 32 + r) (update first c (char_of i)) (omega (arith, h))
    ∙ grind (arith, h)
fill_buf-at (suc n) c i (suc j) r buf h =
    let first = if c % 5 == 0 then update buf c (char_of c) else buf in
    let same : c + suc j * 32 + r ≡ c + 32 + j * 32 + r = omega arith in
    rw same (fill_buf-at n (c + 32) i j r (update first c (char_of i)) h ∙ grind (arith, h))

-- A later write counts.
over_again :
    (b : Bool) (x x' y z w : ℕ)
    → x ≡ x'
    → y ≡ (if b then z else w)
    → (if b then x else y) ≡ (if b then x' else w)
over_again true x x' y z w e h = e
over_again false x x' y z w e h = h

fill_buf-from :
    (m i j r : ℕ) (buf : ℕ → ℕ)
    → r < 32
    → fill_buf m 0 i buf (j * 32 + r) ≡ (if r == 0 && ltb j m then char_of i else buf (j * 32 + r))
fill_buf-from m i j r buf h =
    let same : 0 + j * 32 + r ≡ j * 32 + r = omega arith in rw same at (fill_buf-at m 0 i j r buf h)

fill_all-at :
    (n i j r : ℕ) (buf : ℕ → ℕ)
    → r < 32
    → fill_all (suc n) i buf (j * 32 + r)
      ≡ (if r == 0 && ltb j steps then char_of (i + n) else buf (j * 32 + r))
unfolding fill_all
fill_all-at zero i j r buf h =
    let last : i ≡ i + zero = omega arith in
    subst
      (λ m.
        fill_buf steps 0 i buf (j * 32 + r)
        ≡ (if r == 0 && ltb j steps then char_of m else buf (j * 32 + r)))
      last (fill_buf-from steps i j r buf h)
fill_all-at (suc n) i j r buf h =
    let last : i + 1 + n ≡ i + suc n = omega arith in
    fill_all-at n (i + 1) j r (fill_buf steps 0 i buf) h
    ∙ over_again (r == 0 && ltb j steps) (char_of (i + 1 + n)) (char_of (i + suc n))
        (fill_buf steps 0 i buf (j * 32 + r)) (char_of i) (buf (j * 32 + r)) (ap char_of last)
        (fill_buf-from steps i j r buf h)

-- Behind all rounds.
pub fill_all_lem :
    (j r : ℕ) (buf : ℕ → ℕ)
    → r < 32
    → fill_all 500 0 buf (j * 32 + r) ≡ (if r == 0 && ltb j 1600 then 243 else buf (j * 32 + r))
fill_all_lem j r buf h = fill_all-at 499 0 j r buf h
