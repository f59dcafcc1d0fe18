-- ===== src/Shell/Keymap.antt =====
-- src/system/user/gnwsh/keymap.c and keymap.h: the characters and modifiers of the keys.
use gunw_os.Prelude.{ℕ, zero, suc, Bool, false, not, ◌||◌, ◌==◌, List, [], ◌∷◌}

-- `struct user_cli_kmp_mapping`: the codes of the eight modifier masks.
pub record Mapping : Type 0 where
  pub codes : List ℕ
  pub modifier : ℕ
  pub special : ℕ

abbrev row : ℕ → ℕ → ℕ → ℕ → ℕ → ℕ → ℕ → ℕ → ℕ → ℕ → Mapping
row a b c d e f g h modifier special = record {
  codes = a ∷ b ∷ c ∷ d ∷ e ∷ f ∷ g ∷ h ∷ [];
  modifier = modifier;
  special = special;
}

abbrev zero_mapping : Mapping
zero_mapping = row 0 0 0 0 0 0 0 0 0 0

-- The code of a mask, and the mapping of a key.
unfoldable pub code_at : List ℕ → ℕ → ℕ
code_at [] i = 0
code_at (c ∷ cs) zero = c
code_at (c ∷ cs) (suc i) = code_at cs i

unfoldable pub mapping_at : List Mapping → ℕ → Mapping
mapping_at [] i = zero_mapping
mapping_at (k ∷ ks) zero = k
mapping_at (k ∷ ks) (suc i) = mapping_at ks i

unfoldable pub any_set : List ℕ → Bool
any_set [] = false
any_set (c ∷ cs) = not (c == 0) || any_set cs

unfoldable pub user_cli_kmp_defines : List Mapping → ℕ → Bool
unfolding mapping_at any_set
user_cli_kmp_defines map c =
    let k = mapping_at map c in any_set k.codes || not (k.modifier == 0) || not (k.special == 0)

unfoldable pub user_cli_kmp_default : List Mapping
user_cli_kmp_default =
    row 0 0 0 0 0 0 0 0 0 0
    ∷ row 0 0 0 0 0 0 0 0 0 1
    ∷ row 1 52 0 0 0 0 0 0 0 0
    ∷ row 2 53 0 0 0 0 0 0 0 0
    ∷ row 3 54 0 0 0 0 0 0 0 0
    ∷ row 4 55 0 0 0 0 0 0 0 0
    ∷ row 5 56 0 0 0 0 0 0 0 0
    ∷ row 6 57 0 0 0 0 0 0 0 0
    ∷ row 7 58 0 0 0 0 0 0 0 0
    ∷ row 8 59 0 0 0 0 0 0 0 0
    ∷ row 9 60 0 0 0 0 0 0 0 0
    ∷ row 10 61 0 0 0 0 0 0 0 0
    ∷ row 11 62 0 0 0 0 0 0 0 0
    ∷ row 12 63 0 0 0 0 0 0 0 0
    ∷ row 13 0 0 0 0 0 0 0 0 0
    ∷ row 14 0 0 0 0 0 0 0 0 0
    ∷ row 15 64 0 0 0 0 0 0 0 0
    ∷ row 16 65 0 0 0 0 0 0 0 0
    ∷ row 17 66 0 0 0 0 0 0 0 0
    ∷ row 18 67 0 0 0 0 0 0 0 0
    ∷ row 19 68 0 0 0 0 0 0 0 0
    ∷ row 20 69 0 0 0 0 0 0 0 0
    ∷ row 21 70 0 0 0 0 0 0 0 0
    ∷ row 22 71 0 0 0 0 0 0 0 0
    ∷ row 23 72 0 0 0 0 0 0 0 0
    ∷ row 24 73 0 0 0 0 0 0 0 0
    ∷ row 25 74 0 0 0 0 0 0 0 0
    ∷ row 26 75 0 0 0 0 0 0 0 0
    ∷ row 27 0 0 0 0 0 0 0 0 0
    ∷ row 0 0 0 0 0 0 0 0 2 0
    ∷ row 28 76 0 0 0 0 0 0 0 0
    ∷ row 29 77 0 0 0 0 0 0 0 0
    ∷ row 30 78 0 0 0 0 0 0 0 0
    ∷ row 31 79 0 0 0 0 0 0 0 0
    ∷ row 32 80 0 0 0 0 0 0 0 0
    ∷ row 33 81 0 0 0 0 0 0 0 0
    ∷ row 34 82 0 0 0 0 0 0 0 0
    ∷ row 35 83 0 0 0 0 0 0 0 0
    ∷ row 36 84 0 0 0 0 0 0 0 0
    ∷ row 37 85 0 0 0 0 0 0 0 0
    ∷ row 38 86 0 0 0 0 0 0 0 0
    ∷ row 39 87 0 0 0 0 0 0 0 0
    ∷ row 0 0 0 0 0 0 0 0 1 0
    ∷ row 40 88 0 0 0 0 0 0 0 0
    ∷ row 41 89 0 0 0 0 0 0 0 0
    ∷ row 42 90 0 0 0 0 0 0 0 0
    ∷ row 43 91 0 0 0 0 0 0 0 0
    ∷ row 44 92 0 0 0 0 0 0 0 0
    ∷ row 45 93 0 0 0 0 0 0 0 0
    ∷ row 46 94 0 0 0 0 0 0 0 0
    ∷ row 47 95 0 0 0 0 0 0 0 0
    ∷ row 48 96 0 0 0 0 0 0 0 0
    ∷ row 49 97 0 0 0 0 0 0 0 0
    ∷ row 50 98 0 0 0 0 0 0 0 0
    ∷ row 0 0 0 0 0 0 0 0 1 0
    ∷ row 0 0 0 0 0 0 0 0 0 0
    ∷ row 0 0 0 0 0 0 0 0 4 0
    ∷ row 51 0 0 0 0 0 0 0 0 0
    ∷ row 0 0 0 0 0 0 0 0 0 14
    ∷ row 0 0 0 0 0 0 0 0 0 2
    ∷ row 0 0 0 0 0 0 0 0 0 3
    ∷ row 0 0 0 0 0 0 0 0 0 4
    ∷ row 0 0 0 0 0 0 0 0 0 5
    ∷ row 0 0 0 0 0 0 0 0 0 6
    ∷ row 0 0 0 0 0 0 0 0 0 7
    ∷ row 0 0 0 0 0 0 0 0 0 8
    ∷ row 0 0 0 0 0 0 0 0 0 9
    ∷ row 0 0 0 0 0 0 0 0 0 10
    ∷ row 0 0 0 0 0 0 0 0 0 11
    ∷ row 0 0 0 0 0 0 0 0 0 0
    ∷ row 0 0 0 0 0 0 0 0 0 0
    ∷ row 0 0 0 0 0 0 0 0 0 0
    ∷ row 0 0 0 0 0 0 0 0 0 0
    ∷ row 0 0 0 0 0 0 0 0 0 0
    ∷ row 0 0 0 0 0 0 0 0 0 0
    ∷ row 0 0 0 0 0 0 0 0 0 0
    ∷ row 0 0 0 0 0 0 0 0 0 0
    ∷ row 0 0 0 0 0 0 0 0 0 0
    ∷ row 0 0 0 0 0 0 0 0 0 0
    ∷ row 0 0 0 0 0 0 0 0 0 0
    ∷ row 0 0 0 0 0 0 0 0 0 0
    ∷ row 0 0 0 0 0 0 0 0 0 0
    ∷ row 0 0 0 0 0 0 0 0 0 0
    ∷ row 0 0 0 0 0 0 0 0 0 0
    ∷ row 0 0 0 0 0 0 0 0 0 0
    ∷ row 0 0 0 0 0 0 0 0 0 0
    ∷ row 0 0 0 0 0 0 0 0 0 0
    ∷ row 0 0 0 0 0 0 0 0 0 12
    ∷ row 0 0 0 0 0 0 0 0 0 13
    ∷ row 0 0 0 0 0 0 0 0 0 0
    ∷ row 0 0 0 0 0 0 0 0 0 0
    ∷ row 0 0 0 0 0 0 0 0 0 0
    ∷ row 0 0 0 0 0 0 0 0 0 0
    ∷ row 0 0 0 0 0 0 0 0 0 0
    ∷ row 0 0 0 0 0 0 0 0 0 0
    ∷ row 0 0 0 0 0 0 0 0 0 0
    ∷ row 0 0 0 0 0 0 0 0 0 0
    ∷ row 0 0 0 0 0 0 0 0 0 0
    ∷ row 0 0 0 0 0 0 0 0 0 0
    ∷ row 0 0 0 0 0 0 0 0 0 0
    ∷ row 0 0 0 0 0 0 0 0 0 0
    ∷ row 0 0 0 0 0 0 0 0 0 0
    ∷ row 0 0 0 0 0 0 0 0 0 0
    ∷ row 0 0 0 0 0 0 0 0 0 0
    ∷ row 0 0 0 0 0 0 0 0 0 0
    ∷ row 0 0 0 0 0 0 0 0 0 0
    ∷ row 0 0 0 0 0 0 0 0 0 0
    ∷ row 0 0 0 0 0 0 0 0 0 0
    ∷ row 0 0 0 0 0 0 0 0 0 0
    ∷ row 0 0 0 0 0 0 0 0 0 0
    ∷ row 0 0 0 0 0 0 0 0 0 0
    ∷ row 0 0 0 0 0 0 0 0 0 0
    ∷ row 0 0 0 0 0 0 0 0 0 0
    ∷ row 0 0 0 0 0 0 0 0 0 0
    ∷ row 0 0 0 0 0 0 0 0 0 0
    ∷ row 0 0 0 0 0 0 0 0 0 0
    ∷ row 0 0 0 0 0 0 0 0 0 0
    ∷ row 0 0 0 0 0 0 0 0 0 0
    ∷ row 0 0 0 0 0 0 0 0 0 0
    ∷ row 0 0 0 0 0 0 0 0 0 0
    ∷ row 0 0 0 0 0 0 0 0 0 0
    ∷ row 0 0 0 0 0 0 0 0 0 0
    ∷ row 0 0 0 0 0 0 0 0 0 0
    ∷ row 0 0 0 0 0 0 0 0 0 0
    ∷ row 0 0 0 0 0 0 0 0 0 0
    ∷ row 0 0 0 0 0 0 0 0 0 0
    ∷ row 0 0 0 0 0 0 0 0 0 0
    ∷ row 0 0 0 0 0 0 0 0 0 0
    ∷ []
