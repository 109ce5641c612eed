-- ===== src/Resolve/Combine.antt =====
-- protoresolve/combine.go: one resolver made of many. A range method of a resolver hands the items
-- of a list, one by one, to a callback that may say to stop; the callback's effects are its state.
pub mod Find
pub mod Files
pub mod Extensions
pub mod Examples
use protoreflect.Common.{
  ℕ, Bool, true, false, ◌||◌, List, [], ◌∷◌, Bytes, ◌==◌, if◌then◌else◌, bytes_eq,
}

-- A result with an error, which errors.Is may find to be protoregistry.NotFound.
pub data Result {ℓ} (A : Type ℓ) : Type ℓ where
  found : A → Result A
  not_found : Result A
  failed : Bytes → Result A

-- func(item) bool, with the state that it changes; `false` is the wish to stop
abbrev pub Callback : Type 0 → Type 0 → Type 0
Callback A S = A → S → S × Bool

-- An iteration of the runtime: it ends when the callback returns false.
unfoldable pub range : {A S : Type 0} → List A → Callback A S → S → S
range [] f s = s
range (x ∷ xs) f s = let (s', more) = f x s in if more then range xs f s' else s'

-- The Resolver interface, with each range method as the list that it goes through.
pub record Resolver (File Desc Msg Ext : Type 0) : Type 0 where
  pub find_file_by_path : Bytes → Result File
  pub num_files : ℕ
  pub files : List File
  pub num_files_by_package : Bytes → ℕ
  pub files_by_package : Bytes → List File
  pub find_descriptor_by_name : Bytes → Result Desc
  pub find_message_by_name : Bytes → Result Msg
  pub find_extension_by_name : Bytes → Result Ext
  pub find_extension_by_number : Bytes → ℕ → Result Ext
  pub extensions_by_message : Bytes → List Ext
  pub find_message_by_url : Bytes → Result Msg

-- The loop that every Find method of `combined` and `combinedPool` is.
unfoldable pub find_first : {R A : Type 0} → (R → Result A) → List R → Result A
find_first query [] = not_found
find_first query (res ∷ c) = elim (query res) [
  | not_found ↦ find_first query c
  | found a ↦ found a
  | failed e ↦ failed e
]

-- `_, ok := observed[key]`
unfoldable pub observed_path : Bytes → List Bytes → Bool
observed_path p [] = false
observed_path p (q ∷ qs) = bytes_eq p q || observed_path p qs

unfoldable pub seen_number : ℕ → List ℕ → Bool
seen_number n [] = false
seen_number n (m ∷ ms) = n == m || seen_number n ms

-- The callback that RangeFiles hands to each resolver; it adds each new path to `observed`.
unfoldable pub once_per_path :
    {File S : Type 0} → (File → Bytes) → Callback File S → Callback File (List Bytes × S)
once_per_path path f fd (observed, s) =
    if observed_path (path fd) observed
    then ((observed, s), true)
    else let (s', more) = f fd s in ((path fd ∷ observed, s'), more)

-- The loop over the resolvers of RangeFiles and RangeFilesByPackage: it does not look at what the
-- callback said.
unfoldable pub range_files_loop :
    {R File S : Type 0}
    → (File → Bytes)
    → (R → List File)
    → List R
    → Callback File S
    → List Bytes × S
    → List Bytes × S
range_files_loop path files [] f st = st
range_files_loop path files (res ∷ c) f st =
    range_files_loop path files c f (range (files res) (once_per_path path f) st)

-- The callback of the range methods over extensions and types: `seen` is read and never written.
unfoldable pub keep_going : {A S : Type 0} → (A → Bool) → Callback A S → Callback A (Bool × S)
keep_going in_seen fn x (kept, s) =
    if in_seen x then ((kept, s), true) else let (s', more) = fn x s in ((more, s'), more)

-- The loop over the resolvers of those methods; `keepGoing` is false before each of them.
unfoldable pub range_seen_loop :
    {R A S : Type 0} → (A → Bool) → (R → List A) → List R → Callback A S → S → S
range_seen_loop in_seen items [] fn s = s
range_seen_loop in_seen items (res ∷ c) fn s =
    let (kept, s') = range (items res) (keep_going in_seen fn) (false, s) in
    if kept then range_seen_loop in_seen items c fn s' else s'

-- The methods of `combined`.
module _ {File Desc Msg Ext : Type 0} where
  unfoldable pub find_file_by_path : List (Resolver File Desc Msg Ext) → Bytes → Result File
  find_file_by_path c path = find_first (λ res. res.find_file_by_path path) c

  unfoldable pub num_files : List (Resolver File Desc Msg Ext) → ℕ
  num_files [] = 0
  num_files (res ∷ c) = res.num_files

  unfoldable pub range_files :
      {S : Type 0} → (File → Bytes) → List (Resolver File Desc Msg Ext) → Callback File S → S → S
  unfolding range_files_loop once_per_path
  range_files path c f s = (range_files_loop path (λ res. res.files) c f ([], s)).1

  unfoldable pub num_files_by_package : List (Resolver File Desc Msg Ext) → Bytes → ℕ
  num_files_by_package [] name = 0
  num_files_by_package (res ∷ c) name = res.num_files_by_package name

  unfoldable pub range_files_by_package :
      {S : Type 0}
      → (File → Bytes)
      → List (Resolver File Desc Msg Ext)
      → Bytes
      → Callback File S
      → S
      → S
  unfolding range_files_loop once_per_path
  range_files_by_package path c name f s =
      (range_files_loop path (λ res. res.files_by_package name) c f ([], s)).1

  unfoldable pub find_descriptor_by_name : List (Resolver File Desc Msg Ext) → Bytes → Result Desc
  find_descriptor_by_name c name = find_first (λ res. res.find_descriptor_by_name name) c

  unfoldable pub find_message_by_name : List (Resolver File Desc Msg Ext) → Bytes → Result Msg
  find_message_by_name c name = find_first (λ res. res.find_message_by_name name) c

  unfoldable pub find_extension_by_name : List (Resolver File Desc Msg Ext) → Bytes → Result Ext
  find_extension_by_name c name = find_first (λ res. res.find_extension_by_name name) c

  unfoldable pub find_extension_by_number :
      List (Resolver File Desc Msg Ext) → Bytes → ℕ → Result Ext
  find_extension_by_number c message number =
      find_first (λ res. res.find_extension_by_number message number) c

  -- `number` is ext.Number(); the map `seen` stays empty
  unfoldable pub range_extensions_by_message :
      {S : Type 0} → (Ext → ℕ) → List (Resolver File Desc Msg Ext) → Bytes → Callback Ext S → S → S
  unfolding range_seen_loop keep_going seen_number
  range_extensions_by_message number c message fn s =
      range_seen_loop (λ ext. seen_number (number ext) [])
        (λ (res : Resolver File Desc Msg Ext). res.extensions_by_message message) c fn s

  unfoldable pub find_message_by_url : List (Resolver File Desc Msg Ext) → Bytes → Result Msg
  find_message_by_url c url = find_first (λ res. res.find_message_by_url url) c
