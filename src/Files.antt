-- ===== src/Files.antt =====
-- internal/sort/sort.go, which protodescs/sort.go exports: the order of file descriptor protos.
pub mod Fails
pub mod Examples
use protoreflect.Common.{
  ℕ, zero, suc, Bool, true, false, not, Option, none, some, List, [], ◌∷◌, ◌++◌, Bytes, ◌==◌,
  if◌then◌else◌, bytes_eq, length, take, is_some,
}

-- What is asked of a FileDescriptorProto
pub record FileProto : Type 0 where
  pub name : Bytes
  pub dependency : List Bytes

pub record FileState : Type 0 where
  pub file : FileProto
  pub added : Bool

pub data SortError : Type 0 where
  duplicate_file : Bytes → SortError
  not_present : Bytes → Bytes → SortError
  wrong_length : ℕ → ℕ → SortError
  out_of_fuel : SortError

pub data Outcome (A : Type 0) : Type 0 where
  ok : A → Outcome A
  error : SortError → Outcome A

-- The map allFiles; a key's entry is the first.
unfoldable pub lookup : Bytes → List FileState → Option FileState
lookup name [] = none
lookup name (s ∷ all) = if bytes_eq s.file.name name then some s else lookup name all

-- allFiles[file.GetName()] = state, with added set; the file is in the map
unfoldable pub mark_added : Bytes → List FileState → List FileState
mark_added name [] = []
mark_added name (s ∷ all) =
    if bytes_eq s.file.name name then record s { added = true } ∷ all else s ∷ mark_added name all

unfoldable pub is_added : Option FileState → Bool
is_added none = false
is_added (some s) = s.added

abbrev pub SortState : Type 0
SortState = List FileState × List FileProto

-- The loop of addFileSorted over the dependencies, with the function that adds a file
unfoldable pub add_dependencies :
    (FileProto → SortState → Outcome SortState)
    → FileProto
    → List Bytes
    → SortState
    → Outcome SortState
unfolding lookup
add_dependencies add file [] st = ok st
add_dependencies add file (dep ∷ deps) st = elim (lookup dep st.0) [
  | none ↦ error (not_present file.name dep)
  | some dep_file ↦ elim (add dep_file.file st) [
    | error e ↦ error e
    | ok st' ↦ add_dependencies add file deps st'
  ]
]

-- The end of addFileSorted
unfoldable pub append_sorted : FileProto → Outcome SortState → Outcome SortState
append_sorted file (error e) = error e
append_sorted file (ok (all, sorted)) = ok (all, sorted ++ file ∷ [])

-- addFileSorted, on fuel, with the map and the slice `sorted` as state
unfoldable pub add_file_sorted : ℕ → FileProto → SortState → Outcome SortState
unfolding lookup mark_added is_added add_dependencies append_sorted
add_file_sorted zero file st = error out_of_fuel
add_file_sorted (suc fuel) file (all, sorted) =
    let deps =
      add_dependencies (add_file_sorted fuel) file file.dependency
        (mark_added file.name all, sorted) in
    if is_added (lookup file.name all) then ok (all, sorted) else append_sorted file deps

-- The first loop of SortFiles: the map, or the error for a duplicate
unfoldable pub all_files_loop : List FileProto → List FileState → Outcome (List FileState)
unfolding lookup
all_files_loop [] all = ok all
all_files_loop (file ∷ files) all =
    let rest = all_files_loop files (all ++ record { file = file; added = false } ∷ []) in
    if is_some (lookup file.name all) then error (duplicate_file file.name) else rest

-- The second loop
unfoldable pub add_files :
    ℕ → List FileProto → List FileState × List FileProto → Outcome (List FileState × List FileProto)
unfolding add_file_sorted
add_files fuel [] st = ok st
add_files fuel (file ∷ files) st = elim (add_file_sorted fuel file st) [
  | error e ↦ error e
  | ok st' ↦ add_files fuel files st'
]

unfoldable pub check_length :
    ℕ → Outcome (List FileState × List FileProto) → Outcome (List FileProto)
check_length orig_len (error e) = error e
check_length orig_len (ok (all, sorted)) =
    if orig_len == length sorted then ok sorted else error (wrong_length (length sorted) orig_len)

-- files = files[:0], and the loop that then ranges over it
unfoldable pub sort_from : List FileProto → Outcome (List FileState) → Outcome (List FileProto)
unfolding add_files check_length
sort_from files (error e) = error e
sort_from files (ok all) =
    let emptied = take 0 files in
    check_length (length files) (add_files (suc (length all)) emptied (all, emptied))

-- SortFiles
unfoldable pub sort_files : List FileProto → Outcome (List FileProto)
unfolding all_files_loop sort_from
sort_files files = sort_from files (all_files_loop files [])
