-- ===== src/Tests/Programs.antt =====
-- A program file with one section, and its start.
use gunw_os.Prelude.Int.{pos}
use gunw_os.Prelude.Outcome.{Outcome, ok, Ensures}
use gunw_os.Prelude.{
  ℕ, zero, suc, none, first, ◌<◌, ◌≡◌, refl, Array, update, List, [], ◌∷◌, Bool, true, ◌&&◌, ltb,
  Option, some, arith,
}
use gunw_os.Text.{literal, strcmpl}
use gunw_os.Elf.{Expectation, header, elf_validate}
use gunw_os.Elf.Accepted.{AreBytes, IsElf, elf_validate-IsElf}
use gunw_os.Storage.Volumes.{Files}
use gunw_os.Mem.Contents.{Memory}
use gunw_os.Start.Services.{storage_calls}
use gunw_os.Tests.Processes.{start}
use gunw_os.Tests.Memory.{blank}
use gunw_os.Tests.Files.{files}
use gunw_os.Kernel.{ProcState, ps_none, k_proc_id_is_user}
use gunw_os.Storage.File.{k_stor_file_get_info, load_file_chain}
use gunw_os.Text.Find.{strfindl}
use gunw_os.Mem.Zone.{k_mem_buffer_zone_valid_for_proc}
use gunw_os.Start.{CtrlError, gce_unknown, load_file}
use gunw_os.Start.{World, StartDescriptor, k_scr_usr_start, expected_program}
use gunw_os.Start.Failure.{Settled, k_scr_usr_start-Settled}

abbrev bytes : List ℕ
bytes =
    127 ∷ 69 ∷ 76 ∷ 70 ∷ 1 ∷ 1 ∷ 1 ∷ 0 ∷ 0 ∷ 0 ∷ 0 ∷ 0 ∷ 0 ∷ 0 ∷ 0 ∷ 0 ∷ 2 ∷ 0 ∷ 3 ∷ 0 ∷ 1 ∷ 0 ∷ 0
    ∷ 0 ∷ 0 ∷ 16 ∷ 0 ∷ 0 ∷ 52 ∷ 0 ∷ 0 ∷ 0 ∷ 52 ∷ 0 ∷ 0 ∷ 0 ∷ 0 ∷ 0 ∷ 0 ∷ 0 ∷ 52 ∷ 0 ∷ 32 ∷ 0 ∷ 0 ∷ 0
    ∷ 40 ∷ 0 ∷ 1 ∷ 0 ∷ 0 ∷ 0 ∷ 0 ∷ 0 ∷ 0 ∷ 0 ∷ 1 ∷ 0 ∷ 0 ∷ 0 ∷ 2 ∷ 0 ∷ 0 ∷ 0 ∷ 0 ∷ 16 ∷ 0 ∷ 0 ∷ 0
    ∷ 0 ∷ 0 ∷ 0 ∷ 4 ∷ 0 ∷ 0 ∷ 0 ∷ 0 ∷ 0 ∷ 0 ∷ 0 ∷ 0 ∷ 0 ∷ 0 ∷ 0 ∷ 4 ∷ 0 ∷ 0 ∷ 0 ∷ 0 ∷ 0 ∷ 0 ∷ 0 ∷ []

abbrev program : Array ℕ
program = literal bytes

abbrev all_bytes : List ℕ → Bool
all_bytes [] = true
all_bytes (c ∷ cs) = ltb c 256 && all_bytes cs

literal-lt : (cs : List ℕ) (i : ℕ) → all_bytes cs ≡ true → literal cs i < 256
literal-lt [] i h = omega arith
literal-lt (c ∷ cs) zero h = ground arith
literal-lt (c ∷ cs) (suc i) h = ground (arith, literal-lt cs i)

program-AreBytes : AreBytes program
program-AreBytes i = literal-lt bytes i refl

accepted : elf_validate (some program) 92 (some expected_program) ≡ true
unfolding elf_validate strcmpl first
accepted = refl

elf_validate-IsElf_example :
    IsElf program 92
    × ((e : Expectation)
        → ◌≡◌ {A = Option Expectation} (some expected_program) (some e)
        → ((header program).class ≡ e.class)
          × ((header program).endianess ≡ e.endianess)
          × ((header program).type ≡ e.type)
          × ((header program).architecture ≡ e.architecture))
elf_validate-IsElf_example =
    elf_validate-IsElf program 92 (some expected_program) program-AreBytes accepted

-- The bytes of the memory, one address space for all.
abbrev memory : Memory (Array ℕ)
memory = record { get = λ p i w. w i; put = λ p i b w. update w i b }

abbrev world : World (Files ℕ × Array ℕ)
world = record { kernel = start; paging = blank; rest = (files 0, λ i. b'a') }

abbrev request : StartDescriptor
request = record { path_ptr = 8192; path_len = 10; error_ptr = 4096 }

k_scr_usr_start-Settled_example :
    Ensures
      (Settled (storage_calls memory 9 (pos 2)) start)
      (k_scr_usr_start (storage_calls memory 9 (pos 2)) (pos 2) 12288 request world)
k_scr_usr_start-Settled_example =
    k_scr_usr_start-Settled (storage_calls memory 9 (pos 2)) (pos 2) 12288 request world

-- What a start comes to: the error, and the state of the first entry.
abbrev settled : Outcome (CtrlError × World (Files ℕ × Array ℕ)) → Option (CtrlError × ProcState)
settled (ok (e, m)) = some (e, (m.kernel.p_tab 0).state)
settled _ = none

-- The path has no volume.
refused :
    settled (k_scr_usr_start (storage_calls memory 9 (pos 2)) (pos 2) 12288 request world)
    ≡ some (gce_unknown, ps_none)
unfolding k_scr_usr_start storage_calls k_mem_buffer_zone_valid_for_proc k_proc_id_is_user load_file
    k_stor_file_get_info load_file_chain strfindl
refused = refl
