-- ===== src/Dev/Event.antt =====
-- src/system/api/app/include/gunwdev.h and src/gunwdev.c: a device event and its bytes. Words are
-- stored with the low byte first, as on the i386.
use gunw_os.Prelude.{
  ℕ, ◌+◌, ◌-◌, ◌*◌, ◌/◌, ◌%◌, ◌^◌, ◌<◌, ◌≡◌, Array, ltb, if◌then◌else◌, Option, none, some, arith,
}

-- `struct gnwDeviceEvent`, with the bytes at `data`.
pub record DeviceEvent : Type 0 where
  pub type : ℕ
  pub data_ptr : ℕ
  pub data_size_bytes : ℕ
  pub bytes : Array ℕ

-- Byte `i` of a word, and the word of four bytes from `i` on.
abbrev pub byte_of : ℕ → ℕ → ℕ
byte_of n i = n / 256 ^ i % 256

abbrev pub word_at : Array ℕ → ℕ → ℕ
word_at b i = b i + b (i + 1) * 256 + b (i + 2) * 65536 + b (i + 3) * 16777216

-- `gnwDeviceEvent_encode` into a buffer. It is never called on a null pointer.
unfoldable pub gnw_device_event_encode : Option DeviceEvent → Array ℕ → Array ℕ
gnw_device_event_encode none buffer = buffer
gnw_device_event_encode (some e) buffer = λ i.
    if ltb i 4
    then byte_of e.type i
    else if ltb i 8
    then byte_of e.data_size_bytes (i - 4)
    else if ltb (i - 8) e.data_size_bytes
    then e.bytes (i - 8)
    else buffer i

-- `gnwDeviceEvent_decode` of the buffer at an address.
unfoldable pub gnw_device_event_decode : ℕ → Array ℕ → DeviceEvent
gnw_device_event_decode data_ptr buffer = record {
  type = word_at buffer 0;
  data_ptr = data_ptr + 4 + 4;
  data_size_bytes = word_at buffer 4;
  bytes = λ i. buffer (i + 8);
}

word_bytes :
    (n : ℕ)
    → n < 4294967296
    → byte_of n 0 + byte_of n 1 * 256 + byte_of n 2 * 65536 + byte_of n 3 * 16777216 ≡ n
word_bytes n h = omega arith

-- Decoding the bytes of an encoded device event, its type and size of 32 bits, gives back the
-- type, the size and the data.
pub decode-encode :
    (e : DeviceEvent) (data_ptr : ℕ) (buffer : Array ℕ)
    → e.type < 4294967296
    → e.data_size_bytes < 4294967296
    → ((gnw_device_event_decode data_ptr (gnw_device_event_encode (some e) buffer)).type ≡ e.type)
      × ((gnw_device_event_decode data_ptr
            (gnw_device_event_encode (some e) buffer)).data_size_bytes
          ≡ e.data_size_bytes)
      × ((i : ℕ)
          → i < e.data_size_bytes
          → (gnw_device_event_decode data_ptr (gnw_device_event_encode (some e) buffer)).bytes i
            ≡ e.bytes i)
unfolding gnw_device_event_decode gnw_device_event_encode
decode-encode e data_ptr buffer t s = (
  word_bytes e.type t,
  word_bytes e.data_size_bytes s,
  λ i h. let same : i + 8 - 8 ≡ i = omega arith in rw same (ground arith),
)
