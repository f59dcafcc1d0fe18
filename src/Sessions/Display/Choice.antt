-- ===== src/Sessions/Display/Choice.antt =====
-- src/system/user/gnwdispm/public.c: the choice of a display of a type.
use gunw_os.Prelude.Outcome.{
  Outcome, ok, ◌>>=◌, Ensures, ensures_ok, Ensures-if, Ensures-bind, Ensures-then, Outcome-cases,
  Stuck-bind, stuck-Ensures,
}
use gunw_os.Prelude.Int.{ℤ, pos, negsuc}
use gunw_os.Prelude.{
  ℕ, zero, suc, ◌+◌, ◌-◌, ◌≡◌, ◌≢◌, refl, Bool, true, false, not, ◌&&◌, ltb, ◌==◌, if◌then◌else◌,
  arith, inl, inr, ap, ◌∙◌,
}
use gunw_os.Dev.Errors.{DeviceError, gde_none, gde_not_found, gde_unknown}
use gunw_os.Sessions.Display.{
  DisplayType, DisplayDescriptor, Calls, is_text, is_text_type, same, succeeded,
}
use gunw_os.Sessions.Display.Attach.{succeeded_iff, failed}

-- A word as an `int_32`.
abbrev pub signed : ℕ → ℤ
signed n = if ltb n 2147483648 then pos n else negsuc (4294967295 - n)

abbrev pub positive : ℤ → Bool
positive (pos zero) = false
positive (pos (suc n)) = true
positive (negsuc n) = false

module _ {W : Type 0} (calls : Calls W) where
  -- `GDU_DISPLAY_PARAM_FORMAT` is parameter 1, and 0 stands for no format.
  unfoldable pub get_supported_format : ℕ → ℕ → W → Outcome (ℕ × W)
  get_supported_format id index w =
      calls.get_param id (record { param = 1; sub_param = 0; param_index = index }) w
      >>= λ ((e, format), w'). ok (if succeeded e then format else 0, w')

  unfoldable pub get_supported_display_format : DisplayType → ℕ → ℕ → ℕ → W → Outcome (ℕ × W)
  get_supported_display_format type id i zero w = ok (0, w)
  get_supported_display_format type id i (suc n) w = get_supported_format id i w >>= λ (format, w').
      let rest = get_supported_display_format type id (i + 1) n w' in
      if same (is_text format) (is_text_type type) then ok (format, w') else rest

  -- `GDU_DISPLAY_PARAM_DIMENSIONS` is parameter 2.
  unfoldable pub get_display_dimensions : ℕ → ℕ → W → Outcome ((ℤ × ℤ) × W)
  get_display_dimensions id format w =
      calls.get_param id (record { param = 2; sub_param = format; param_index = 0 }) w
      >>= λ ((e, x), w').
          if not (succeeded e)
          then ok ((negsuc 0, negsuc 0), w')
          else (calls.get_param id (record { param = 2; sub_param = format; param_index = 1 }) w'
              >>= λ ((e', y), w'').
                  ok (
                    if not (succeeded e') then (negsuc 0, negsuc 0) else (signed x, signed y),
                    w'',
                  ))

  unfoldable pub dimensions_valid : ℤ × ℤ → Bool
  dimensions_valid (x, y) = positive x && positive y

  -- The descriptor is written on success only.
  unfoldable pub display_get_display :
      DisplayType → DisplayDescriptor → W → Outcome ((DeviceError × DisplayDescriptor) × W)
  unfolding get_supported_display_format get_display_dimensions dimensions_valid
  display_get_display type before w = calls.get_display w >>= λ (e, id, count).
      if not (succeeded e)
      then ok ((e, before), w)
      else (get_supported_display_format type id 0 count w >>= λ (format, w').
          if format == 0
          then ok ((gde_not_found, before), w')
          else (get_display_dimensions id format w' >>= λ (dimensions, w'').
              if not (dimensions_valid dimensions)
              then ok ((gde_unknown, before), w'')
              else ok (
                (
                  gde_none,
                  record {
                    identifier = id;
                    width = dimensions.0;
                    height = dimensions.1;
                    format = format;
                  },
                ),
                w'',
              )))

  format-fits :
      (type : DisplayType) (id i n : ℕ) (w : W)
      → Ensures
          (λ (r : ℕ × W). r.0 ≢ 0 → same (is_text r.0) (is_text_type type) ≡ true)
          (get_supported_display_format type id i n w)
  unfolding get_supported_display_format
  format-fits type id i zero w = ensures_ok (λ ne. absurd (ne refl))
  format-fits type id i (suc n) w = Ensures-then (get_supported_format id i w) λ (format, w').
      Ensures-if (same (is_text format) (is_text_type type)) (λ fits. ensures_ok (λ ne. fits))
        λ _. format-fits type id (i + 1) n w'

  -- What is said of a descriptor that the manager gives out.
  abbrev pub Chosen : DisplayType → W → (DeviceError × DisplayDescriptor) × W → Type 0
  Chosen type w ((e, d), w') =
      e ≡ gde_none
      → ((count : ℕ) × (calls.get_display w ≡ ok (gde_none, d.identifier, count)))
        × (same (is_text d.format) (is_text_type type) ≡ true)
        × (positive d.width ≡ true)
        × (positive d.height ≡ true)

  -- A descriptor that display_getDisplay answers names the display that the kernel has found, its
  -- format is of the wanted type, and its dimensions are above zero.
  pub display_get_display-Chosen :
      (type : DisplayType) (before : DisplayDescriptor) (w : W)
      → Ensures (Chosen type w) (display_get_display type before w)
  unfolding display_get_display dimensions_valid
  display_get_display-Chosen type before w = elim (Outcome-cases (calls.get_display w)) [
    | inr stuck ↦ stuck-Ensures _ (Stuck-bind _ _ stuck)
    | inl ((e, id, count), found) ↦ rw found (
        Ensures-if (not (succeeded e)) (λ bad. ensures_ok (λ q. absurd (failed e (ground arith) q)))
          λ good. Ensures-bind (format-fits type id 0 count w) λ (format, w') fits.
            Ensures-if (format == 0) (λ _. ensures_ok (λ q. absurd (cc)))
              λ some_format. Ensures-then (get_display_dimensions id format w') λ (dimensions, w'').
                Ensures-if (not (dimensions_valid dimensions)) (λ _. ensures_ok (λ q. absurd (cc)))
                  λ valid. ensures_ok (λ q. (
                    (count, found ∙ ap (λ x. ok (x, id, count)) (succeeded_iff e (ground arith))),
                    fits (ground arith),
                    ground arith,
                    ground arith,
                  )))
  ]
