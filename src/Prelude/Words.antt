-- ===== src/Prelude/Words.antt =====
-- Arithmetic of `size_t`, a word of 32 bits, and the macros of src/lib/stdgunw/include/utils.h.
use gunw_os.Prelude.Tests.{ltb, leb, if◌then◌else◌}
use Prim.Native.Nat.{ℕ, ◌+◌, ◌-◌, ◌%◌}
use mathlib.Core.Bool.{Bool, ◌&&◌}

abbrev pub word : ℕ → ℕ
word n = n % 4294967296

-- `a - b` of two words: below zero it wraps.
abbrev pub sub_word : ℕ → ℕ → ℕ
sub_word a b = if leb b a then a - b else 4294967296 + a - b

abbrev pub min : ℕ → ℕ → ℕ
min a b = if ltb a b then a else b

abbrev pub in_range : ℕ → ℕ → ℕ → Bool
in_range b v t = leb b v && leb v t
