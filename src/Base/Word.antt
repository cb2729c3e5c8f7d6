-- ===== src/Base/Word.antt =====
-- Machine words of the 32-bit ports: `ULONG`, `UINT` and `RK_TICK` are 32 bits wide.
use Prim.Native.Nat.{ℕ, ◌+◌, ◌-◌, ◌%◌}

-- RK_ULONG_MAX + 1
abbrev pub word_mod : ℕ
word_mod = 4294967296

-- RK_ULONG_MAX
abbrev pub ulong_max : ℕ
ulong_max = 4294967295

abbrev pub add_word : ℕ → ℕ → ℕ
add_word a b = (a + b) % word_mod

-- the number of word addresses: pointers of 32 bits to words of four bytes
abbrev pub address_mod : ℕ
address_mod = 1073741824

-- `p + n` for a pointer to `ULONG` and a `ULONG`
abbrev pub add_words : ℕ → ℕ → ℕ
add_words p n = (p + n) % address_mod

-- `-` on ℕ stops at 0, so the modulus is added first.
abbrev pub sub_word : ℕ → ℕ → ℕ
sub_word a b = (a + word_mod - b) % word_mod
