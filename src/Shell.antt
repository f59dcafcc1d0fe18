-- ===== src/Shell.antt =====
-- src/system/user/gnwsh: the command line of the shell. cli.c and keybuf.c; the output, the search
-- for a command and its run are calls on a state of their own. A `fug` is an `oops`. A message to
-- the log is left out.
pub mod Keymap
pub mod Charset
pub mod Line
pub mod Keys
pub mod Command
use Prim.Native.Nat.{bit_and, bit_or}
use gunw_os.Prelude.Outcome.{Outcome, ok, oops, ◌>>=◌}
use gunw_os.Prelude.{
  ℕ, zero, suc, ◌+◌, ◌-◌, Array, update, first, Bool, true, false, not, ◌||◌, ltb, leb, ◌==◌,
  if◌then◌else◌, Option, none, some, List, [], ◌∷◌,
}
use gunw_os.Text.{literal}
use gunw_os.Shell.Keymap.{Mapping, code_at, mapping_at, user_cli_kmp_default, user_cli_kmp_defines}
use gunw_os.Shell.Charset.{charset_codes_max, user_cli_chs_default, user_cli_chs_defines}

-- `CMD_LEN_MAX` and `SCANCODES_MAX`
abbrev pub cmd_len_max : ℕ
cmd_len_max = 64

abbrev pub scancodes_max : ℕ
scancodes_max = 128

-- The texts of the command line.
abbrev pub not_recognized : Array ℕ
not_recognized = literal (
    67 ∷ 111 ∷ 109 ∷ 109 ∷ 97 ∷ 110 ∷ 100 ∷ 32 ∷ 110 ∷ 111 ∷ 116 ∷ 32 ∷ 114 ∷ 101 ∷ 99 ∷ 111 ∷ 103
    ∷ 110 ∷ 105 ∷ 122 ∷ 101 ∷ 100 ∷ 58 ∷ 32 ∷ 34 ∷ [])

abbrev pub end_quote : Array ℕ
end_quote = literal (34 ∷ 10 ∷ [])

abbrev pub unknown_scancode : Array ℕ
unknown_scancode = literal (
    91 ∷ 85 ∷ 78 ∷ 75 ∷ 78 ∷ 79 ∷ 87 ∷ 78 ∷ 32 ∷ 83 ∷ 67 ∷ 65 ∷ 78 ∷ 67 ∷ 79 ∷ 68 ∷ 69 ∷ 58 ∷ 32
    ∷ [])

abbrev pub prompt_text : Array ℕ
prompt_text = literal (91 ∷ 71 ∷ 117 ∷ 110 ∷ 119 ∷ 83 ∷ 72 ∷ 93 ∷ 58 ∷ 32 ∷ [])

-- The output, and `s_cli_cmdSelector`: the routine of a command, with its parameters if there are any.
pub record Console (W : Type 0) : Type 0 where
  pub putc : ℕ → W → W
  pub puts : Array ℕ → W → W
  pub putin : ℕ → W → W
  pub selector : Array ℕ → Option (Option (Array ℕ) → W → W)

-- `cmdBuf`, `cmdBufIndex`, `kmod`, and the state of the console.
pub record Shell (W : Type 0) : Type 0 where
  pub cmd_buf : Array ℕ
  pub cmd_buf_index : ℕ
  pub kmod : ℕ
  pub world : W

-- The end of the name of a command, in a buffer of 65 bytes that ends with a zero.
abbrev pub name_end : Array ℕ → ℕ
name_end cmd = first (λ i. cmd i == 0 || cmd i == 32) 0 64

module _ {W : Type 0} where
  abbrev pub run_selected : Option (Option (Array ℕ) → W → W) → Option (Array ℕ) → W → Bool × W
  run_selected none params w = (false, w)
  run_selected (some sel) params w = (true, sel params w)

module _ {W : Type 0} (console : Console W) where
  unfoldable pub s_cli_command : Array ℕ → W → Bool × W
  s_cli_command cmd w =
      let i = name_end cmd in
      run_selected (console.selector (λ j. if ltb j i then cmd j else 0))
        (if cmd i == 0 then none else some (λ j. cmd (i + 1 + j))) w

  unfoldable pub prompt : Shell W → Shell W
  prompt s = record s {
    cmd_buf = λ j. if ltb j 65 then 0 else s.cmd_buf j;
    cmd_buf_index = 0;
    world = console.puts prompt_text s.world;
  }

  abbrev pub recognized : Array ℕ → Bool × W → W
  recognized cmd (true, w) = w
  recognized cmd (false, w) =
      console.puts end_quote (console.puts cmd (console.puts not_recognized w))

  unfoldable pub exec : Shell W → Shell W
  unfolding s_cli_command prompt
  exec s =
      let buf = update s.cmd_buf 64 0 in
      let run = record s { cmd_buf = buf; world = recognized buf (s_cli_command buf s.world) } in
      let s' = if s.cmd_buf_index == 0 then s else run in
      prompt (record s' { world = console.putc 10 s'.world })

  unfoldable pub append : ℕ → Shell W → Shell W
  unfolding exec
  append c s =
      if c == 0
      then s
      else if c == 10
      then exec (record s { world = console.putc c s.world })
      else if c == 8
      then (if s.cmd_buf_index == 0 then s else record s {
        cmd_buf = update s.cmd_buf (s.cmd_buf_index - 1) 0;
        cmd_buf_index = s.cmd_buf_index - 1;
        world = console.putc c s.world;
      })
      else if leb 64 s.cmd_buf_index
      then s
      else record s {
        cmd_buf = update s.cmd_buf s.cmd_buf_index c;
        cmd_buf_index = s.cmd_buf_index + 1;
        world = console.putc c s.world;
      }

  unfoldable pub on_key_down : ℕ → Shell W → Outcome (Shell W)
  unfolding append user_cli_kmp_defines
  on_key_down c s =
      let code = code_at (mapping_at user_cli_kmp_default c).codes s.kmod in
      if not (user_cli_kmp_defines user_cli_kmp_default c)
      then ok (record s {
        world = console.putc 93 (console.putin c (console.puts unknown_scancode s.world));
      })
      else if leb charset_codes_max code
      then oops
      else if user_cli_chs_defines user_cli_chs_default code
      then ok (append (literal user_cli_chs_default code) s)
      else ok s

  unfoldable pub user_cli_kbf_down : ℕ → Shell W → Outcome (Shell W)
  unfolding on_key_down
  user_cli_kbf_down k s =
      if leb scancodes_max k
      then oops
      else on_key_down k
          (record s { kmod = bit_or s.kmod (mapping_at user_cli_kmp_default k).modifier })

  -- No routine is registered for the release of a key.
  unfoldable pub user_cli_kbf_up : ℕ → Shell W → Outcome (Shell W)
  user_cli_kbf_up k s =
      if leb scancodes_max k
      then oops
      else ok
          (record s { kmod = bit_and s.kmod (255 - (mapping_at user_cli_kmp_default k).modifier) })

  unfoldable pub on_keyboard_event : ℕ → ℕ → Shell W → Outcome (Shell W)
  unfolding user_cli_kbf_down user_cli_kbf_up
  on_keyboard_event code key s =
      if code == 0
      then user_cli_kbf_down key s
      else if code == 1
      then user_cli_kbf_up key s
      else oops
