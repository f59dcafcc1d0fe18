-- ===== src/Start/Services.antt =====
-- src/system/kernel/syscall/usr/start.c: the calls of the storage as the routines that answer them
-- (src/system/kernel/storage/file.c), for the process that calls. The path is read under its page
-- tables. A loaded file is written to the memory behind the pointer, up to the end of the addresses;
-- the bytes behind the file are what they were.
use gunw_os.Prelude.Outcome.{ok, ◌>>=◌, Answer, done, fails}
use gunw_os.Prelude.Int.{ℤ}
use gunw_os.Prelude.{
  ℕ, zero, suc, ◌+◌, ◌-◌, Array, true, ◌==◌, if◌then◌else◌, Option, none, some, word,
}
use gunw_os.Kernel.{kernel_proc_id}
use gunw_os.Mem.Contents.{Memory}
use gunw_os.Fat12.{FileError, FileInfo}
use gunw_os.Storage.Volumes.{Files}
use gunw_os.Storage.File.{k_stor_file_get_info, k_stor_file_load}
use gunw_os.Start.{Calls}

abbrev error_of : Answer FileError FileInfo → Option FileError
error_of (done info) = none
error_of (fails e) = some e

abbrev size_of : Answer FileError FileInfo → ℕ
size_of (done info) = info.size_bytes
size_of (fails e) = 0

module _ {M : Type 0} (memory : Memory M) where
  abbrev pointed : ℤ → ℕ → M → Option (Array ℕ)
  pointed p ptr w = if ptr == 0 then none else some (λ i. memory.get p (word (ptr + i)) w)

  unfoldable pub stored : ℕ → ℕ → Array ℕ → M → M
  stored ptr zero bytes w = w
  stored ptr (suc n) bytes w = stored ptr n bytes (memory.put kernel_proc_id (ptr + n) (bytes n) w)

  abbrev stored_some : ℕ → Option (Array ℕ) → M → M
  stored_some ptr none w = w
  stored_some ptr (some bytes) w = stored ptr (4294967296 - ptr) bytes w

  unfoldable pub storage_calls : {S : Type 0} → ℕ → ℤ → Calls (Files S × M)
  unfolding stored
  storage_calls fuel caller = record {
    file_get_info = λ path len w.
        k_stor_file_get_info fuel (pointed caller path w.1) len true w.0 >>= λ (answer, files).
        ok (error_of answer, size_of answer, (files, w.1));
    file_load = λ path len ptr w.
        k_stor_file_load fuel (pointed caller path w.1) len (pointed kernel_proc_id ptr w.1) w.0
        >>= λ ((answer, bytes), files). ok (error_of answer, (files, stored_some ptr bytes w.1));
    memory = record {
      get = λ p i w. memory.get p i w.1;
      put = λ p i b w. (w.0, memory.put p i b w.1);
    };
  }
