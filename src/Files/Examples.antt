-- ===== src/Files/Examples.antt =====
-- SortFiles on two files, the first of which imports the second.
use protoreflect.Common.{◌≡◌, refl, false, List, [], ◌∷◌, codes, bytes_eq}
use protoreflect.Files.{
  FileProto, FileState, SortError, Outcome, ok, error, sort_files, add_files, add_file_sorted,
  lookup, mark_added, is_added, add_dependencies, append_sorted,
}
use protoreflect.Files.Fails.{sort_files-fails}

abbrev base : FileProto
base = record { name = codes "base.proto"; dependency = [] }

abbrev user : FileProto
user = record { name = codes "user.proto"; dependency = codes "base.proto" ∷ [] }

sort_files-fails_example : (e : SortError) × (sort_files (user ∷ base ∷ []) ≡ error e)
sort_files-fails_example = sort_files-fails (user ∷ base ∷ []) (λ e. cc e)

abbrev not_added : FileProto → FileState
not_added f = record { file = f; added = false }

abbrev sorted_of : Outcome (List FileState × List FileProto) → List FileProto
sorted_of (ok st) = st.1
sorted_of (error e) = []

-- The second loop would order them, if it ranged over the files.
added_in_order :
    sorted_of (add_files 3 (user ∷ base ∷ []) (not_added user ∷ not_added base ∷ [], []))
    ≡ base ∷ user ∷ []
unfolding add_files add_file_sorted lookup mark_added is_added add_dependencies append_sorted
    bytes_eq
added_in_order = refl
