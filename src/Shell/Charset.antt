-- ===== src/Shell/Charset.antt =====
-- src/system/user/gnwsh/charset.c and charset.h: the characters of the codes.
use gunw_os.Prelude.{ℕ, Bool, not, ◌==◌, List, [], ◌∷◌}
use gunw_os.Text.{literal}

-- `CHARSET_CODES_MAX`
abbrev pub charset_codes_max : ℕ
charset_codes_max = 99

unfoldable pub user_cli_chs_default : List ℕ
user_cli_chs_default =
    0 ∷ 49 ∷ 50 ∷ 51 ∷ 52 ∷ 53 ∷ 54 ∷ 55 ∷ 56 ∷ 57 ∷ 48 ∷ 45 ∷ 61 ∷ 8 ∷ 9 ∷ 113 ∷ 119 ∷ 101 ∷ 114
    ∷ 116 ∷ 121 ∷ 117 ∷ 105 ∷ 111 ∷ 112 ∷ 91 ∷ 93 ∷ 10 ∷ 97 ∷ 115 ∷ 100 ∷ 102 ∷ 103 ∷ 104 ∷ 106
    ∷ 107 ∷ 108 ∷ 59 ∷ 39 ∷ 96 ∷ 92 ∷ 122 ∷ 120 ∷ 99 ∷ 118 ∷ 98 ∷ 110 ∷ 109 ∷ 44 ∷ 46 ∷ 47 ∷ 32 ∷ 33
    ∷ 64 ∷ 35 ∷ 36 ∷ 37 ∷ 94 ∷ 38 ∷ 42 ∷ 40 ∷ 41 ∷ 95 ∷ 43 ∷ 81 ∷ 87 ∷ 69 ∷ 82 ∷ 84 ∷ 89 ∷ 85 ∷ 73
    ∷ 79 ∷ 80 ∷ 123 ∷ 125 ∷ 65 ∷ 83 ∷ 68 ∷ 70 ∷ 71 ∷ 72 ∷ 74 ∷ 75 ∷ 76 ∷ 58 ∷ 34 ∷ 126 ∷ 124 ∷ 90
    ∷ 88 ∷ 67 ∷ 86 ∷ 66 ∷ 78 ∷ 77 ∷ 60 ∷ 62 ∷ 63 ∷ []

unfoldable pub user_cli_chs_defines : List ℕ → ℕ → Bool
user_cli_chs_defines map c = not (literal map c == 0)
