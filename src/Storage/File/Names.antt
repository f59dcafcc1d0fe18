-- ===== src/Storage/File/Names.antt =====
-- src/system/kernel/storage/file.c: the names of files in paths.
use gunw_os.Prelude.Outcome.{ok, Answer, fails, Ensures, ensures_ok, Ensures-if, Ensures-then}
use gunw_os.Prelude.Int.{pos, leb_ℤ}
use gunw_os.Prelude.{
  ℕ, ◌+◌, ◌-◌, ◌<◌, ◌≡◌, ◌≢◌, ◌∙◌, refl, ap, not, inl, inr, Array, [], ◌∷◌, leb, ltb, Option, none,
  some, word, arith,
}
use gunw_os.Text.{literal}
use gunw_os.Text.Find.{strfindl, str_not_found, strfindl-char}
use gunw_os.Text.Numbers.{str2intl}
use gunw_os.Fat12.{FileInfo, FileError, invalid_path}
use gunw_os.Storage.Volumes.{Files, k_stor_volume_validate_id}
use gunw_os.Storage.File.{int_32, size_t, load_named, load_of_volume, load_file_chain}

-- The dot is not found in a name that has none.
no_dot :
    (name : Array ℕ) (n : ℕ)
    → n < 2147483648
    → ((i : ℕ) → i < n → name i ≢ b'.')
    → strfindl name (int_32 n) (literal (b'.' ∷ [])) (pos 1) ≡ ok str_not_found
no_dot name n small none_there =
    let same : int_32 n ≡ pos n = ground arith in
    ap (λ l. strfindl name l (literal (b'.' ∷ [])) (pos 1)) same
    ∙ elim (strfindl-char name n (literal (b'.' ∷ []))) [
      | inl (e, _) ↦ e
      | inr (i, _, lt, dot, _) ↦ absurd (none_there i lt dot)
    ]

module _ {S : Type 0} where
  -- The search has the error for an invalid path and has changed nothing.
  abbrev pub IsInvalid :
      Option (Array ℕ) → Files S → (Answer FileError FileInfo × Option (Array ℕ)) × Files S → Type 0
  IsInvalid dst m r = r ≡ ((fails invalid_path, dst), m)

  load_named-no_dot :
      (fuel volume : ℕ) (name : Array ℕ) (name_len : ℕ) (dst : Option (Array ℕ)) (m : Files S)
      → name_len < 2147483648
      → ((i : ℕ) → i < name_len → name i ≢ b'.')
      → ((i : ℕ) → (m.file_systems i).desc.max_filename_length < 4294967295)
      → Ensures (IsInvalid dst m) (load_named fuel volume name name_len dst m)
  unfolding load_named
  load_named-no_dot fuel volume name name_len dst m small none_there short =
      rw (no_dot name name_len small none_there) (
        Ensures-if
          (ltb (m.file_systems (m.storage.volumes volume).file_sys_id).desc.max_filename_length
            4294967295)
          (λ _. ensures_ok refl)
          λ fits. absurd (ground (arith, short (m.storage.volumes volume).file_sys_id)))

  load_of_volume-no_dot :
      (fuel : ℕ) (path : Array ℕ) (path_len id_len : ℕ) (volume : Option ℕ) (dst : Option (Array ℕ))
      (m : Files S)
      → path_len < 2147483648
      → ((i : ℕ) → i < path_len → path i ≢ b'.')
      → ((i : ℕ) → (m.file_systems i).desc.max_filename_length < 4294967295)
      → Ensures (IsInvalid dst m) (load_of_volume fuel path path_len id_len volume dst m)
  unfolding load_of_volume
  load_of_volume-no_dot fuel path path_len id_len none dst m small none_there short =
      ensures_ok refl
  load_of_volume-no_dot fuel path path_len id_len (some volume) dst m small none_there short =
      Ensures-if (leb path_len (word (id_len + 1))) (λ _. ensures_ok refl)
        λ _. Ensures-then (k_stor_volume_validate_id volume m) λ valid.
          Ensures-if (not valid) (λ _. ensures_ok refl)
            λ _.
              load_named-no_dot fuel volume (λ i. path (id_len + 1 + i)) (path_len - id_len - 1) dst
                m (omega arith) (λ i lt. none_there (id_len + 1 + i) (omega arith)) short

  -- If no file system has names of 2 ^ 32 - 1 characters, a path of less than 2 ^ 31 characters
  -- without a dot is refused: the search for its file, if it returns, has the error for an
  -- invalid path, and has changed nothing.
  pub load_file_chain-no_dot :
      (fuel : ℕ) (path : Array ℕ) (path_len : ℕ) (dst : Option (Array ℕ)) (m : Files S)
      → path_len < 2147483648
      → ((i : ℕ) → i < path_len → path i ≢ b'.')
      → ((i : ℕ) → (m.file_systems i).desc.max_filename_length < 4294967295)
      → Ensures (IsInvalid dst m) (load_file_chain fuel path path_len dst m)
  unfolding load_file_chain
  load_file_chain-no_dot fuel path path_len dst m small none_there short =
      Ensures-then (strfindl path (int_32 path_len) (literal (b':' ∷ [])) (pos 1)) λ id_len.
        Ensures-if (leb_ℤ id_len (pos 0)) (λ _. ensures_ok refl)
          λ _. Ensures-then (str2intl path (size_t id_len)) λ volume.
            load_of_volume-no_dot fuel path path_len (size_t id_len) volume dst m small none_there
              short
