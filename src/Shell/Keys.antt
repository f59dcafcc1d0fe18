-- ===== src/Shell/Keys.antt =====
-- src/system/user/gnwsh: what a run of key events leaves in the command line.
use Prim.Native.Nat.{bit_and, bit_or}
use gunw_os.Prelude.Outcome.{Outcome, ok, ◌>>=◌, Returns}
use gunw_os.Prelude.{
  ℕ, zero, suc, ◌-◌, ◌<◌, ◌≡◌, ◌∙◌, refl, ap, subst, Bool, true, false, ◌&&◌, Bool-cases, inl, inr,
  ltb, leb, ◌==◌, if◌then◌else◌, List, [], ◌∷◌, arith,
}
use gunw_os.Text.{literal}
use gunw_os.Shell.Keymap.{
  Mapping, code_at, mapping_at, any_set, user_cli_kmp_default, user_cli_kmp_defines,
}
use gunw_os.Shell.Charset.{user_cli_chs_default, user_cli_chs_defines}
use gunw_os.Shell.{
  Console, Shell, unknown_scancode, append, exec, prompt, on_key_down, user_cli_kbf_down,
  user_cli_kbf_up, on_keyboard_event,
}
use gunw_os.Shell.Line.{edit, Holds, append-Holds}

-- The character of a key under a mask of modifiers, 0 for none.
abbrev pub key_char : ℕ → ℕ → ℕ
key_char mask key =
    literal user_cli_chs_default (code_at (mapping_at user_cli_kmp_default key).codes mask)

-- What the press (0) or the release of a key does to a line and the mask.
abbrev pub typed : List ℕ × ℕ → ℕ × ℕ → List ℕ × ℕ
typed (line, mask) (code, key) =
    let modifier = (mapping_at user_cli_kmp_default key).modifier in
    if code == 0
    then (edit line (key_char (bit_or mask modifier) key), bit_or mask modifier)
    else (line, bit_and mask (255 - modifier))

abbrev pub typed_all : List ℕ × ℕ → List (ℕ × ℕ) → List ℕ × ℕ
typed_all t [] = t
typed_all t (e ∷ es) = typed_all (typed t e) es

-- Every code of the table of keys is one of the table of characters.
all_codes : List ℕ → Bool
all_codes [] = true
all_codes (c ∷ cs) = ltb c 99 && all_codes cs

all_rows : List Mapping → Bool
unfolding all_codes
all_rows [] = true
all_rows (k ∷ ks) = all_codes k.codes && all_rows ks

default_codes : all_rows user_cli_kmp_default ≡ true
unfolding all_rows user_cli_kmp_default
default_codes = refl

code_at-lt : (cs : List ℕ) (i : ℕ) → all_codes cs ≡ true → code_at cs i < 99
unfolding code_at all_codes
code_at-lt [] i h = omega arith
code_at-lt (c ∷ cs) zero h = ground arith
code_at-lt (c ∷ cs) (suc i) h = ground (arith, code_at-lt cs i)

mapping_at-lt :
    (ks : List Mapping) (key mask : ℕ)
    → all_rows ks ≡ true
    → code_at (mapping_at ks key).codes mask < 99
unfolding mapping_at all_rows
mapping_at-lt [] key mask h = code_at-lt (mapping_at [] key).codes mask (unfold all_codes in refl)
mapping_at-lt (k ∷ ks) zero mask h = code_at-lt k.codes mask (ground arith)
mapping_at-lt (k ∷ ks) (suc key) mask h = mapping_at-lt ks key mask (ground arith)

-- A key that the table does not define has no code.
code_at-none : (cs : List ℕ) (i : ℕ) → any_set cs ≡ false → code_at cs i ≡ 0
unfolding code_at any_set
code_at-none [] i h = refl
code_at-none (c ∷ cs) zero h = ground arith
code_at-none (c ∷ cs) (suc i) h = ground (arith, code_at-none cs i)

undefined-char :
    (key mask : ℕ) → user_cli_kmp_defines user_cli_kmp_default key ≡ false → key_char mask key ≡ 0
unfolding user_cli_kmp_defines
undefined-char key mask h =
    let none_set : code_at (mapping_at user_cli_kmp_default key).codes mask ≡ 0 =
      code_at-none (mapping_at user_cli_kmp_default key).codes mask (ground arith) in
    ap (literal user_cli_chs_default) none_set ∙ (unfold user_cli_chs_default in refl)

-- Presses and releases of keys.
abbrev pub AreKeys : List (ℕ × ℕ) → Type 0
AreKeys [] = Unit {0}
AreKeys ((code, key) ∷ es) = (code < 2) × (key < 128) × AreKeys es

module _ {W : Type 0} (console : Console W) where
  -- The buffer holds the line, and the mask is that of the keys.
  abbrev pub Shows : List ℕ × ℕ → Shell W → Type 0
  Shows (line, mask) s = Holds console s line × (s.kmod ≡ mask)

  append-kmod : (c : ℕ) (s : Shell W) → (append console c s).kmod ≡ s.kmod
  unfolding append exec prompt
  append-kmod c s = ground arith

  on_key_down-Shows :
      (key : ℕ) (s : Shell W) (line : List ℕ)
      → Holds console s line
      → Returns (Shows (edit line (key_char s.kmod key), s.kmod)) (on_key_down console key s)
  unfolding on_key_down user_cli_chs_defines
  on_key_down-Shows key s line h =
      let code = code_at (mapping_at user_cli_kmp_default key).codes s.kmod in
      let char = literal user_cli_chs_default code in
      elim (Bool-cases (user_cli_kmp_defines user_cli_kmp_default key)) [
        | inr unknown ↦
            let nothing : char ≡ 0 = undefined-char key s.kmod unknown in
            (
              record s {
                world = console.putc 93 (console.putin key (console.puts unknown_scancode s.world));
              },
              rw unknown,
              rw nothing (record { index = h.index; short = h.short; chars = h.chars }, refl),
            )
        | inl known ↦
            let below : leb 99 code ≡ false =
              ground (arith, mapping_at-lt user_cli_kmp_default key s.kmod default_codes) in
            elim (Bool-cases (char == 0)) [
              | inl blank ↦ (s, rw (known, below, blank), (rw blank h, refl))
              | inr visible ↦ (
                append console char s,
                rw (known, below, visible),
                (append-Holds console char s line h, append-kmod char s),
              )
            ]
      ]

  on_keyboard_event-Shows :
      (code key : ℕ) (s : Shell W) (line : List ℕ)
      → code < 2
      → key < 128
      → Holds console s line
      → Returns (Shows (typed (line, s.kmod) (code, key))) (on_keyboard_event console code key s)
  unfolding on_keyboard_event user_cli_kbf_down user_cli_kbf_up
  on_keyboard_event-Shows code key s line lc lk h =
      let in_table : leb 128 key ≡ false = ground arith in
      let modifier = (mapping_at user_cli_kmp_default key).modifier in
      elim (Bool-cases (code == 0)) [
        | inl down ↦
            rw (down, in_table)
              (on_key_down-Shows key (record s { kmod = bit_or s.kmod modifier }) line
                (record { index = h.index; short = h.short; chars = h.chars }))
        | inr up ↦
            let one : (code == 1) ≡ true = ground arith in
            (
              record s { kmod = bit_and s.kmod (255 - modifier) },
              rw (up, one, in_table),
              rw up (record { index = h.index; short = h.short; chars = h.chars }, refl),
            )
      ]

  -- Events one after the other.
  unfoldable pub on_events : List (ℕ × ℕ) → Shell W → Outcome (Shell W)
  unfolding on_keyboard_event
  on_events [] s = ok s
  on_events ((code, key) ∷ es) s = on_keyboard_event console code key s >>= on_events es

  -- From a buffer that holds a line, any presses and releases of keys below 128 are handled
  -- without a FUG, and the buffer then holds what they make of the line, and the mask what they
  -- make of the mask.
  pub on_events-Shows :
      (es : List (ℕ × ℕ)) (s : Shell W) (line : List ℕ)
      → AreKeys es
      → Holds console s line
      → Returns (Shows (typed_all (line, s.kmod) es)) (on_events es s)
  unfolding on_events
  on_events-Shows [] s line k h = (s, refl, (h, refl))
  on_events-Shows ((code, key) ∷ es) s line (lc, lk, k) h =
      let (s', e, (h', mask)) = on_keyboard_event-Shows code key s line lc lk h in
      let next = typed (line, s.kmod) (code, key) in
      let (r, f, w) = on_events-Shows es s' next.0 k h' in
      (r, rw e f, subst (λ mask. Shows (typed_all (next.0, mask) es) r) mask w)
