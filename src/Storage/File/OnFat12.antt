-- ===== src/Storage/File/OnFat12.antt =====
-- src/system/kernel/driver/fat12/fat12.c under src/system/kernel/storage/file.c: the descriptor of the
-- file system, and the load of a file on a volume whose clusters have one sector.
use gunw_os.Prelude.Outcome.{ok, Answer, done, fails}
use gunw_os.Prelude.{
  ℕ, ◌+◌, ◌*◌, ◌/◌, ◌%◌, ◌≤◌, ◌<◌, ◌≡◌, ◌≢◌, true, false, Array, ◌==◌, none, some, arith,
}
use gunw_os.Fat12.{
  Bpb, DirEntry, FileInfo, FileError, sectors_per_alloc_unit, directory_range, fat_range,
  fat_verify, file_start_location, next_location, is_contiguous, is_valid_for_read, is_eof,
  alloc_unit_aligned_bytes, cluster_start_sector,
}
use gunw_os.Fat12.Search.{FileAnswer, found, failed, file_info}
use gunw_os.Fat12.Detect.{detect}
use gunw_os.Storage.FileSystem.{FileSystemDescriptor}
use gunw_os.Storage.Volumes.{Files, k_stor_volume_read_bytes}
use gunw_os.Storage.File.{load_file}
use gunw_os.Storage.File.Content.{Reads, load_chain-content}
use gunw_os.Storage.File.Clusters.{cluster_at, IsFile, file-IsChain}

abbrev pub as_answer : FileAnswer → Answer FileError FileInfo
as_answer (found info) = done info
as_answer (failed e) = fails e

-- The header and the directory are bytes that the driver reads as structures.
module _ (bpb_of : Array ℕ → Bpb) (entries_of : Array ℕ → Array DirEntry) where
  unfoldable pub k_drv_fat12_descriptor : FileSystemDescriptor
  k_drv_fat12_descriptor = record {
    header_range = record { offset = 11; length = 51 };
    max_filename_length = 8;
    max_extension_length = 3;
    sectors_per_alloc_unit = some (λ h. sectors_per_alloc_unit (bpb_of h));
    directory_range = some (λ h. directory_range (some (bpb_of h)));
    fat_range = some (λ h. fat_range (some (bpb_of h)));
    fat_verify = some (λ h fat. fat_verify (bpb_of h) fat);
    file_start_location = some (λ h info. file_start_location (bpb_of h) info);
    next_location = some (λ h fat l. next_location (bpb_of h) fat l);
    is_contiguous = some (λ h l m. is_contiguous (bpb_of h) l m);
    is_valid_for_read = some (λ h l. is_valid_for_read (bpb_of h) l);
    is_eof = some is_eof;
    file_info = some (λ h dir name ext.
        as_answer
          (file_info (some (bpb_of h)) (some (entries_of dir)) (some name) (some ext) true));
    alloc_unit_aligned_bytes = some (λ h bytes. alloc_unit_aligned_bytes (bpb_of h) bytes);
    detect = some (λ h g. detect (bpb_of h) g);
  }

-- The place of a byte of a file on a volume with one sector to a cluster.
abbrev pub place_on_disk : Bpb → Array ℕ → ℕ → ℕ → ℕ
place_on_disk b fat first_cluster i =
    cluster_start_sector b (cluster_at fat first_cluster (i / b.bytes_per_logical_sector))
      * b.bytes_per_logical_sector
    + i % b.bytes_per_logical_sector

-- On a FAT12 volume with one sector to a cluster, if the table is read and passes its test, the
-- file is a chain of clusters in it that are valid for reading, ended by a mark, and as long as
-- the size of the file asks for, and reads of the drive succeed with the bytes of the disk, then
-- loadFile comes back without an error, for fuel of at least as many rounds as there are
-- clusters. The buffer then holds the bytes of the clusters in the order of the table, and is
-- unchanged behind them.
pub load_file-clusters :
    {S : Type 0} (bpb_of : Array ℕ → Bpb) (entries_of : Array ℕ → Array DirEntry) (fuel volume : ℕ)
    (header disk fat dst : Array ℕ) (info : FileInfo) (n : ℕ) (m m' : Files S)
    {Good : Files S → Type 0}
    → IsFile (bpb_of header) fat info n
    → (fat_range (some (bpb_of header))).length ≢ 0
    → k_stor_volume_read_bytes volume (fat_range (some (bpb_of header))) m ≡ ok (done fat, m')
    → fat_verify (bpb_of header) fat ≡ true
    → Reads volume (bpb_of header).bytes_per_logical_sector disk Good
    → Good m'
    → n ≤ fuel
    → (bytes : Array ℕ) × (m'' : Files S) × (load_file fuel volume header info
          (k_drv_fat12_descriptor bpb_of entries_of)
          dst
          m
        ≡ ok (none, bytes, m''))
      × ((i : ℕ)
          → i < n * (bpb_of header).bytes_per_logical_sector
          → bytes i ≡ disk (place_on_disk (bpb_of header) fat info.alloc_unit i))
      × ((i : ℕ) → n * (bpb_of header).bytes_per_logical_sector ≤ i → bytes i ≡ dst i)
unfolding load_file k_drv_fat12_descriptor file_start_location cluster_at
load_file-clusters bpb_of entries_of fuel volume header disk fat dst info n m m' f some_table read
      verified reads good enough =
    let (bytes, m'', loaded, file, behind) =
      load_chain-content disk volume (file-IsChain f) reads fuel fuel dst m' enough enough good in
    let test : ((fat_range (some (bpb_of header))).length == 0) ≡ false = ground arith in
    (bytes, m'', rw test (rw read (rw verified loaded)), file, behind)
