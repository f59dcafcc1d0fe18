-- ===== src/Shell/Command.antt =====
-- src/system/user/gnwsh/cli.c: the command that a finished line runs.
use gunw_os.Prelude.{
  ℕ, zero, suc, ◌+◌, ◌<◌, ◌≡◌, ◌≢◌, ◌∙◌, refl, sym, ap, fun_ext, Array, update, first, first_hit,
  first_miss, true, false, ◌||◌, ltb, ◌==◌, if◌then◌else◌, Option, some, List, [], ◌∷◌, ◌++◌,
  length, length-append, dec_lt, arith,
}
use gunw_os.Text.{literal}
use gunw_os.Shell.{
  Console, Shell, prompt_text, append, exec, prompt, name_end, run_selected, s_cli_command,
}
use gunw_os.Shell.Line.{Holds, literal_beyond}

-- A word: no character of it is a zero or a blank.
abbrev pub IsWord : List ℕ → Type 0
IsWord [] = Unit {0}
IsWord (c ∷ cs) = (c ≢ 0) × (c ≢ 32) × IsWord cs

literal-word :
    (cs rest : List ℕ) (j : ℕ)
    → IsWord cs
    → j < length cs
    → (literal (cs ++ rest) j ≡ literal cs j) × (literal cs j ≢ 0) × (literal cs j ≢ 32)
literal-word [] rest j w lt = absurd (omega arith)
literal-word (c ∷ cs) rest zero (nz, nb, w) lt = (refl, nz, nb)
literal-word (c ∷ cs) rest (suc j) (nz, nb, w) lt = literal-word cs rest j w (omega arith)

literal-behind : (cs rest : List ℕ) (j : ℕ) → literal (cs ++ rest) (length cs + j) ≡ literal rest j
literal-behind [] rest j = ap (literal rest) (omega arith)
literal-behind (c ∷ cs) rest j =
    let shifted : suc (length cs) + j ≡ suc (length cs + j) = omega arith in
    ap (literal (c ∷ (cs ++ rest))) shifted ∙ literal-behind cs rest j

module _ (cs rest : List ℕ) (w : IsWord cs) (short : length cs < 64) where
  -- The name ends where the blank is.
  name_end-word : name_end (literal (cs ++ 32 ∷ rest)) ≡ length cs
  name_end-word =
      let cmd = literal (cs ++ 32 ∷ rest) in
      let test = λ (i : ℕ). cmd i == 0 || cmd i == 32 in
      let blank : cmd (length cs) ≡ 32 = ap cmd (omega arith) ∙ literal-behind cs (32 ∷ rest) 0 in
      elim (dec_lt (first test 0 64) (length cs)) [
        | yes before ↦
            let char = literal-word cs (32 ∷ rest) (first test 0 64) w before in
            absurd (ground (arith, first_hit test 0 64 (omega arith), char))
        | no ge ↦ elim (dec_lt (length cs) (first test 0 64)) [
          | yes behind ↦
              absurd (ground (arith, first_miss test 0 64 (length cs) (omega arith) behind, blank))
          | no le ↦ omega arith
        ]
      ]

  name-word : (λ j. if ltb j (length cs) then literal (cs ++ 32 ∷ rest) j else 0) ≡ literal cs
  name-word = fun_ext pointwise
    where
      pointwise :
          (j : ℕ) → (if ltb j (length cs) then literal (cs ++ 32 ∷ rest) j else 0) ≡ literal cs j
      pointwise j = elim (dec_lt j (length cs)) [
        | yes lt ↦
            let same : ltb j (length cs) ≡ true = ground arith in
            rw same (literal-word cs (32 ∷ rest) j w lt).0
        | no ge ↦
            let beyond : ltb j (length cs) ≡ false = ground arith in
            rw beyond (sym (literal_beyond cs j (omega arith)))
      ]

  params-word : (λ j. literal (cs ++ 32 ∷ rest) (length cs + 1 + j)) ≡ literal rest
  params-word = fun_ext pointwise
    where
      pointwise : (j : ℕ) → literal (cs ++ 32 ∷ rest) (length cs + 1 + j) ≡ literal rest j
      pointwise j =
          let shifted : length cs + 1 + j ≡ length cs + suc j = omega arith in
          ap (literal (cs ++ 32 ∷ rest)) shifted ∙ literal-behind cs (32 ∷ rest) (suc j)

module _ {W : Type 0} (console : Console W) where
  s_cli_command-word :
      (cs rest : List ℕ) (u : W)
      → IsWord cs
      → length cs < 64
      → s_cli_command console (literal (cs ++ 32 ∷ rest)) u
        ≡ run_selected (console.selector (literal cs)) (some (literal rest)) u
  unfolding s_cli_command
  s_cli_command-word cs rest u w short =
      let cmd = literal (cs ++ 32 ∷ rest) in
      let blank : cmd (length cs) ≡ 32 = ap cmd (omega arith) ∙ literal-behind cs (32 ∷ rest) 0 in
      let more : (cmd (length cs) == 0) ≡ false = ground (arith, blank) in
      rw (
        name_end-word cs rest w short,
        more,
        name-word cs rest w short,
        params-word cs rest w short,
      )

  -- A line of at most 64 characters that holds a word, a blank and more, and whose word is a
  -- command, is handled at the end of line by the routine of that command, with what is behind
  -- the blank; the next prompt follows.
  pub append-command :
      (s : Shell W) (cs rest : List ℕ) (sel : Option (Array ℕ) → W → W)
      → IsWord cs
      → Holds console s (cs ++ 32 ∷ rest)
      → console.selector (literal cs) ≡ some sel
      → (append console 10 s).world
        ≡ console.puts prompt_text
            (console.putc 10 (sel (some (literal rest)) (console.putc 10 s.world)))
  unfolding append exec prompt
  append-command s cs rest sel w h e =
      let line = cs ++ 32 ∷ rest in
      let size : length line ≡ length cs + suc (length rest) = length-append cs (32 ∷ rest) in
      let full : (s.cmd_buf_index == 0) ≡ false = ground (arith, h.index, size) in
      let whole : update s.cmd_buf 64 0 ≡ literal line =
        fun_ext λ j. ground (arith, h.chars j, literal_beyond line j, h.short) in
      let ran : s_cli_command console (update s.cmd_buf 64 0) (console.putc 10 s.world)
          ≡ (true, sel (some (literal rest)) (console.putc 10 s.world)) =
        ap (λ b. s_cli_command console b (console.putc 10 s.world)) whole
        ∙ s_cli_command-word cs rest (console.putc 10 s.world) w (omega (arith, h.short, size))
        ∙ ap (λ o. run_selected o (some (literal rest)) (console.putc 10 s.world)) e in
      rw (full, ran)
