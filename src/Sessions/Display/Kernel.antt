-- ===== src/Sessions/Display/Kernel.antt =====
-- src/system/user/gnwdispm: the calls of the display manager as the routines of the kernel that answer
-- them (src/system/kernel/syscall/usr). The structures that are passed lie at one address of the
-- manager, and a result at another; what stands there otherwise is arbitrary.
use gunw_os.Prelude.Outcome.{
  Outcome, ok, ◌>>=◌, Ensures, ensures_ok, ensures_oops, Ensures-if, Ensures-bind, Ensures-then,
  ensures_result,
}
use gunw_os.Prelude.Int.{ℤ}
use gunw_os.Prelude.{ℕ, ◌+◌, ◌<◌, ◌≡◌, ◌==◌, not, Array, update, Option, none, some, arith}
use gunw_os.Mem.Zone.{k_mem_buffer_zone_valid_for_proc}
use gunw_os.Dev.Errors.{DeviceError, gde_none, gde_not_found}
use gunw_os.Dev.Descriptor.{UhaDesc}
use gunw_os.Dev.{Machine, k_dev_get_by_id, validate_installed_id}
use gunw_os.Syscall.{
  k_scr_usr_dev_get_by_id, k_scr_usr_dev_get_by_type, k_scr_usr_dev_get_param,
  k_scr_usr_dev_set_param, k_scr_usr_dev_mem_write,
}
use gunw_os.Sessions.Display.{Calls}

-- `DEV_TYPE_DISPLAY`
abbrev dev_type_display : ℕ
dev_type_display = 16

abbrev found_display : Option UhaDesc → DeviceError × ℕ × ℕ
found_display none = (gde_not_found, 0, 0)
found_display (some d) = (gde_none, d.identifier, d.supported_format_count)

-- `sizeof(struct gnwDeviceUHADesc)` is a parameter.
module _ {S : Type 0} (p : ℤ) (ptr result desc_bytes : ℕ) (words : Array ℕ) where
  unfoldable pub display_known : ℕ → Machine S → Outcome DeviceError
  display_known id m = k_scr_usr_dev_get_by_id p id ptr desc_bytes m >>= λ d. ok gde_none

  installed-lt :
      (id : ℕ) (m : Machine S)
      → Ensures (λ (d : UhaDesc). id < 8) (k_scr_usr_dev_get_by_id p id ptr desc_bytes m)
  unfolding k_scr_usr_dev_get_by_id k_dev_get_by_id
  installed-lt id m =
      Ensures-if (ptr == 0) (λ _. ensures_oops)
        λ _. Ensures-then (k_mem_buffer_zone_valid_for_proc p ptr desc_bytes) λ valid.
          Ensures-if (not valid) (λ _. ensures_oops)
            λ _.
              Ensures-if (not (validate_installed_id id m)) (λ _. ensures_oops)
                λ installed. ensures_ok (ground arith)

  pub display_known-lt : (id : ℕ) (m : Machine S) → display_known id m ≡ ok gde_none → id < 8
  unfolding display_known
  display_known-lt id m e =
      ensures_result {P = λ (x : DeviceError). id < 8}
        (Ensures-bind (installed-lt id m) (λ d lt. ensures_ok lt)) e

  abbrev pub kernel_calls : Calls (Machine S)
  kernel_calls = record {
    get_display = λ m.
        k_scr_usr_dev_get_by_type p dev_type_display ptr desc_bytes m >>= λ d. ok (found_display d);
    get_by_id = display_known;
    get_param = λ id d m.
        k_scr_usr_dev_get_param p id ptr result
          (update (update (update words ptr d.param) (ptr + 4) d.sub_param) (ptr + 8) d.param_index)
          m;
    set_format = λ id format m. k_scr_usr_dev_set_param p id ptr format (update words ptr 1) m;
    mem_write = λ id buffer range m.
        k_scr_usr_dev_mem_write p id buffer ptr
          (update (update words ptr range.offset) (ptr + 4) range.size_bytes) m;
    known_lt = display_known-lt;
  }
