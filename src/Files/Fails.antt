-- ===== src/Files/Fails.antt =====
-- SortFiles of internal/sort/sort.go on files that are not duplicates.
use protoreflect.Common.{ℕ, suc, ◌≡◌, ◌≢◌, refl, false, List, [], ◌∷◌, length, ◌==◌, arith}
use protoreflect.Files.{
  FileProto, FileState, SortError, Outcome, ok, error, wrong_length, all_files_loop, add_files,
  check_length, sort_from, sort_files,
}

not_zero : (n : ℕ) → (suc n == 0) ≡ false
not_zero n = ground arith

sort_from-fails :
    (file : FileProto) (files : List FileProto) (o : Outcome (List FileState))
    → (e : SortError) × (sort_from (file ∷ files) o ≡ error e)
unfolding sort_from add_files check_length
sort_from-fails file files (error e) = (e, refl)
sort_from-fails file files (ok all) =
    (wrong_length 0 (length (file ∷ files)), rw (not_zero (length files)) refl)

-- SortFiles returns an error for every slice of files that is not empty.
pub sort_files-fails :
    (files : List FileProto) → files ≢ [] → (e : SortError) × (sort_files files ≡ error e)
unfolding sort_files
sort_files-fails [] h = absurd (h refl)
sort_files-fails (file ∷ files) h = sort_from-fails file files (all_files_loop (file ∷ files) [])
