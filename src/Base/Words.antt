-- ===== src/Base/Words.antt =====
-- The 32-bit words of the ARM targets: `int`, `long` and `unsigned long` are all 32 bits wide.
use Prim.Native.Nat.{ℕ, ◌+◌, ◌-◌, ◌*◌, ◌%◌}

-- 2 ^ 32.
abbrev pub word : ℕ
word = 4294967296

abbrev pub add_word : ℕ → ℕ → ℕ
add_word a b = (a + b) % word

-- The wrapping difference of two words.
abbrev pub sub_word : ℕ → ℕ → ℕ
sub_word a b = (a + word - b % word) % word

abbrev pub mul_word : ℕ → ℕ → ℕ
mul_word a b = a * b % word

-- PAGE_SIZE of the target kernel, and the constant of the same name in the user program.
abbrev pub page_size : ℕ
page_size = 4096
