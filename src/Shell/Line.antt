-- ===== src/Shell/Line.antt =====
-- src/system/user/gnwsh/cli.c: the buffer of the command line against a list of characters.
use gunw_os.Prelude.{
  ℕ, zero, suc, ◌+◌, ◌-◌, ◌≤◌, ◌<◌, ◌≡◌, refl, update, true, false, Bool-cases, inl, inr, leb, ◌==◌,
  if◌then◌else◌, List, [], ◌∷◌, ◌++◌, length, length-append, arith,
}
use gunw_os.Text.{literal}
use gunw_os.Shell.{Console, Shell, append, exec, prompt}

-- A line without its last character.
abbrev pub init : List ℕ → List ℕ
init [] = []
init (x ∷ []) = []
init (x ∷ y ∷ ys) = x ∷ init (y ∷ ys)

-- What a character does to a line: an end of line empties it, a backspace takes its last character,
-- any other is added to a line that is shorter than 64.
abbrev pub edit : List ℕ → ℕ → List ℕ
edit line c =
    if c == 0
    then line
    else if c == 10
    then []
    else if c == 8
    then init line
    else if leb 64 (length line)
    then line
    else line ++ c ∷ []

pub literal_beyond : (line : List ℕ) (j : ℕ) → length line ≤ j → literal line j ≡ 0
literal_beyond [] j h = refl
literal_beyond (x ∷ xs) zero h = absurd (omega arith)
literal_beyond (x ∷ xs) (suc j) h = literal_beyond xs j (omega arith)

literal-append :
    (line : List ℕ) (c j : ℕ) → literal (line ++ c ∷ []) j ≡ update (literal line) (length line) c j
literal-append [] c zero = ground arith
literal-append [] c (suc j) = ground arith
literal-append (x ∷ xs) c zero = ground arith
literal-append (x ∷ xs) c (suc j) = ground (arith, literal-append xs c j)

literal-init :
    (line : List ℕ) (j : ℕ) → literal (init line) j ≡ update (literal line) (length line - 1) 0 j
literal-init [] j = ground arith
literal-init (x ∷ []) zero = ground arith
literal-init (x ∷ []) (suc j) = ground arith
literal-init (x ∷ y ∷ ys) zero = ground arith
literal-init (x ∷ y ∷ ys) (suc j) = ground (arith, literal-init (y ∷ ys) j)

length-init : (line : List ℕ) → length (init line) ≡ length line - 1
length-init [] = omega arith
length-init (x ∷ []) = omega arith
length-init (x ∷ y ∷ ys) = omega (arith, length-init (y ∷ ys))

module _ {W : Type 0} (console : Console W) where
  -- The buffer holds a line of at most 64 characters, and zeros behind it.
  pub record Holds (s : Shell W) (line : List ℕ) : Type 0 where
    pub index : s.cmd_buf_index ≡ length line
    pub short : length line ≤ 64
    pub chars : (j : ℕ) → s.cmd_buf j ≡ literal line j

  exec-Holds : (s : Shell W) (line : List ℕ) → Holds s line → Holds (exec console s) []
  unfolding exec prompt
  exec-Holds s line h = record {
    index = refl;
    short = omega arith;
    chars = λ j. ground (arith, h.chars j, literal_beyond line j, h.short);
  }

  init-Holds :
      (s : Shell W) (line : List ℕ) (w : W)
      → Holds s line
      → Holds
          (record s {
            cmd_buf = update s.cmd_buf (s.cmd_buf_index - 1) 0;
            cmd_buf_index = s.cmd_buf_index - 1;
            world = w;
          })
          (init line)
  init-Holds s line w h = record {
    index = omega (arith, length-init line, h.index);
    short = omega (arith, length-init line, h.short);
    chars = λ j. ground (arith, h.chars j, h.index, literal-init line j);
  }

  snoc-Holds :
      (s : Shell W) (line : List ℕ) (c : ℕ) (w : W)
      → Holds s line
      → s.cmd_buf_index < 64
      → Holds
          (record s {
            cmd_buf = update s.cmd_buf s.cmd_buf_index c;
            cmd_buf_index = s.cmd_buf_index + 1;
            world = w;
          })
          (line ++ c ∷ [])
  snoc-Holds s line c w h lt = record {
    index = omega (arith, length-append line (c ∷ []), h.index);
    short = omega (arith, length-append line (c ∷ []), h.index);
    chars = λ j. ground (arith, h.chars j, h.index, literal-append line c j);
  }

  pub append-Holds :
      (c : ℕ) (s : Shell W) (line : List ℕ)
      → Holds s line
      → Holds (append console c s) (edit line c)
  unfolding append
  append-Holds c s line h = elim (Bool-cases (c == 0)) [
    | inl nothing ↦ rw nothing h
    | inr other ↦ elim (Bool-cases (c == 10)) [
      | inl end_line ↦
          rw (other, end_line)
            (exec-Holds (record s { world = console.putc c s.world }) line
              (record { index = h.index; short = h.short; chars = h.chars }))
      | inr not_end ↦ elim (Bool-cases (c == 8)) [
        | inl back ↦
            rw (other, not_end, back)
              (elim (Bool-cases (s.cmd_buf_index == 0)) [
                | inl empty ↦
                    let none_left : init line ≡ line = init_empty line (ground (arith, h.index)) in
                    rw (empty, none_left) h
                | inr more ↦ rw more (init-Holds s line (console.putc c s.world) h)
              ])
        | inr plain ↦ elim (Bool-cases (leb 64 s.cmd_buf_index)) [
          | inl full ↦
              let full_line : leb 64 (length line) ≡ true = rw (← h.index) full in
              rw (other, not_end, plain, full, full_line) h
          | inr room ↦
              let room_line : leb 64 (length line) ≡ false = rw (← h.index) room in
              rw (other, not_end, plain, room, room_line)
                (snoc-Holds s line c (console.putc c s.world) h (ground arith))
        ]
      ]
    ]
  ]
    where
      init_empty : (line : List ℕ) → length line ≡ 0 → init line ≡ line
      init_empty [] e = refl
      init_empty (x ∷ xs) e = absurd (omega arith)
