-- ===== src/Dev/Descriptor.antt =====
-- src/system/api/driver: the descriptor that a driver hands to the kernel (include/gunwdrv.h,
-- include/gunwuha.h and include/uha), and its validation in src/gunwdrv.c and src/gunwuha.c.
-- A routine of a driver is a function on `S`, the state of the drivers and their hardware; of the
-- routines that the modelled code only compares with null there is a truth value. Parts of the
-- structures that hold nothing (`_unused`) are left out.
use gunw_os.Fat12.{StorGeometry}
use gunw_os.Prelude.{
  Array, ℕ, ◌/◌, ◌%◌, ◌^◌, Bool, false, not, ◌&&◌, ◌||◌, Option, none, some, ◌==◌, if◌then◌else◌,
  is_some,
}

-- `range_addr_t`
pub record AddrRange : Type 0 where
  pub offset : ℕ
  pub size_bytes : ℕ

pub record MemDesc : Type 0 where
  pub bytes_range : AddrRange
  pub max_input_size_bytes : ℕ

pub record StorCtrlDesc : Type 0 where
  pub drive_count : ℕ
  pub removable : Bool
  pub removable_media : Bool

-- `enum gnwStorErrorCode`
pub data StorErrorCode : Type 0 where
  gsec_none gsec_drive_not_present gsec_media_not_present gsec_api_unavailable gsec_invalid_format
        gsec_command_failed gsec_buffer_overflow gsec_invalid_argument gsec_unknown :
      StorErrorCode

-- What a drive's `read` leaves: the size read, the bytes in the buffer, and the error.
pub record ReadResult : Type 0 where
  pub bytes_read : ℕ
  pub buffer : Array ℕ
  pub error : StorErrorCode

module _ (S : Type 0) where
  -- `struct gnwDeviceUHA`
  pub record Uha : Type 0 where
    pub get_param : Option (ℕ → ℕ → ℕ → S → (Bool × ℕ) × S)
    pub set_param : Option (ℕ → ℕ → ℕ → ℕ → S → Bool × S)
    pub mem_desc : MemDesc
    pub mem_write : Option (ℕ → AddrRange → S → S)
    pub stor_ctrl_desc : StorCtrlDesc
    pub drive_present : Option (ℕ → S → Bool × S)
    pub drive_geometry : Option (ℕ → S → StorGeometry × S)
    pub stor_ctrl_read : Option (ℕ → ℕ → ℕ → S → ReadResult × S)
    pub has_data : Bool
    pub char_in_read : Bool
    pub is_ready_to_write : Option (S → Bool × S)
    pub char_out_write : Option (ℕ → S → Bool × S)
    pub supported_format_count : ℕ

  -- `struct gnwDriverConfig`; the service routine is an address.
  pub record DriverConfig : Type 0 where
    pub init : Option (S → Bool × S)
    pub start : Option (S → Bool × S)
    pub isr : Option ℕ
    pub irq : ℕ

  -- `struct gnwDeviceDescriptor`; `name` is the address of the name.
  pub record DeviceDescriptor : Type 0 where
    pub type : ℕ
    pub api : Uha
    pub bus_base : ℕ
    pub driver : DriverConfig
    pub name : Option ℕ

-- `struct gnwDeviceUHADesc`
pub record UhaDesc : Type 0 where
  pub identifier : ℕ
  pub type : ℕ
  pub mem_desc : MemDesc
  pub stor_ctrl_desc : StorCtrlDesc
  pub supported_format_count : ℕ

module _ {S : Type 0} where
  unfoldable pub uha_get_desc : ℕ → ℕ → Uha S → UhaDesc
  uha_get_desc identifier type api = record {
    identifier = identifier;
    type = type;
    mem_desc = api.mem_desc;
    stor_ctrl_desc = api.stor_ctrl_desc;
    supported_format_count = api.supported_format_count;
  }

  validate_device_uha_mem : Uha S → Bool
  validate_device_uha_mem uha =
      if uha.mem_desc.bytes_range.offset == 0
      then false
      else if uha.mem_desc.bytes_range.size_bytes == 0
      then false
      else is_some uha.mem_write

  validate_device_uha_display : Uha S → Bool
  validate_device_uha_display uha =
      if uha.supported_format_count == 0
      then false
      else if not (is_some uha.get_param)
      then false
      else is_some uha.set_param

  validate_device_uha_char_in : Uha S → Bool
  validate_device_uha_char_in uha = if not uha.has_data then false else uha.char_in_read

  validate_device_uha_char_out : Uha S → Bool
  validate_device_uha_char_out uha =
      if not (is_some uha.is_ready_to_write) then false else is_some uha.char_out_write

  validate_device_uha_stor_ctrl : Uha S → Bool
  validate_device_uha_stor_ctrl uha =
      if uha.stor_ctrl_desc.drive_count == 0
      then false
      else if not (is_some uha.drive_geometry)
      then false
      else if not (is_some uha.drive_present)
      then false
      else is_some uha.stor_ctrl_read

-- `type & (1 << bit)`
abbrev pub has_bit : ℕ → ℕ → Bool
has_bit type bit = type / 2 ^ bit % 2 == 1

-- The types of devices, as bits of `enum gnwDeviceType`; a floppy controller has two.
abbrev is_mem : ℕ → Bool
is_mem type = has_bit type 1

abbrev is_display : ℕ → Bool
is_display type = has_bit type 4

abbrev is_char_in : ℕ → Bool
is_char_in type = has_bit type 5

abbrev is_char_out : ℕ → Bool
is_char_out type = has_bit type 6

abbrev is_storage : ℕ → Bool
is_storage type = has_bit type 7

-- One of the types of the list is set.
abbrev type_defined : ℕ → Bool
type_defined type =
    has_bit type 0
    || is_mem type
    || has_bit type 2
    || has_bit type 3
    || is_display type
    || is_char_in type
    || is_char_out type
    || is_storage type
    || has_bit type 8

unfoldable pub validate_device_descriptor : {S : Type 0} → Option (DeviceDescriptor S) → Bool
unfolding validate_device_uha_mem validate_device_uha_display validate_device_uha_char_in
    validate_device_uha_char_out validate_device_uha_stor_ctrl
validate_device_descriptor none = false
validate_device_descriptor (some d) =
    if not (is_some d.name)
    then false
    else if is_mem d.type && not (validate_device_uha_mem d.api)
    then false
    else if is_display d.type && not (validate_device_uha_display d.api)
    then false
    else if is_char_in d.type && not (validate_device_uha_char_in d.api)
    then false
    else if is_char_out d.type && not (validate_device_uha_char_out d.api)
    then false
    else if is_storage d.type && not (validate_device_uha_stor_ctrl d.api)
    then false
    else type_defined d.type
