-- ===== src/Resolve/Combine/Examples.antt =====
-- Combinations of two resolvers whose files, messages and extensions are byte strings and numbers.
use protoreflect.Common.{
  ℕ, ◌≡◌, refl, true, false, List, [], ◌∷◌, Bytes, codes, bytes_eq, if◌then◌else◌, arith,
}
use protoreflect.Resolve.Combine.{
  Result, found, not_found, failed, Callback, range, Resolver, range_files, range_files_by_package,
  range_extensions_by_message, find_first, find_file_by_path, find_descriptor_by_name,
  find_message_by_name, find_extension_by_name, find_extension_by_number, find_message_by_url,
}
use protoreflect.Resolve.Combine.Find.{FirstAnswer, combined-FirstAnswer}
use protoreflect.Resolve.Combine.Files.{all_files, distinct, NoRepeat, range_files-distinct}
use protoreflect.Resolve.Combine.Extensions.{range_extensions_by_message-all_files}
use protoreflect.Resolve.Pool.{TypePool}

abbrev TestResolver : Type 0
TestResolver = Resolver Bytes Bytes Bytes ℕ

-- The answer of a resolver that knows one key
abbrev knows : Bytes → Bytes → Result Bytes
knows key name = if bytes_eq key name then found name else not_found

abbrev resolver_of : Bytes → List Bytes → List ℕ → TestResolver
resolver_of key files extensions = record {
  find_file_by_path = knows key;
  num_files = 2;
  files = files;
  num_files_by_package = λ _. 1;
  files_by_package = λ _. files;
  find_descriptor_by_name = knows key;
  find_message_by_name = knows key;
  find_extension_by_name = λ _. failed (codes "broken");
  find_extension_by_number = λ _ n. found n;
  extensions_by_message = λ _. extensions;
  find_message_by_url = knows key;
}

abbrev first : TestResolver
first = resolver_of (codes "a") (codes "a" ∷ codes "b" ∷ []) (1 ∷ [])

abbrev second : TestResolver
second = resolver_of (codes "c") (codes "b" ∷ codes "c" ∷ []) (1 ∷ 2 ∷ [])

abbrev bare : TestResolver
bare = resolver_of (codes "z") [] []

-- Callbacks that keep what they get
abbrev collect : {A : Type 0} → Callback A (List A)
collect x xs = (x ∷ xs, true)

abbrev collect_one : {A : Type 0} → Callback A (List A)
collect_one x xs = (x ∷ xs, false)

second_answers : find_file_by_path (first ∷ second ∷ []) (codes "c") ≡ found (codes "c")
unfolding find_file_by_path find_first bytes_eq
second_answers = refl

combined-FirstAnswer_example :
    let c = first ∷ second ∷ [] in
    let key = codes "c" in
    FirstAnswer (λ (r : TestResolver). r.find_file_by_path key) c (find_file_by_path c key)
    × FirstAnswer
        (λ (r : TestResolver). r.find_descriptor_by_name key)
        c
        (find_descriptor_by_name c key)
    × FirstAnswer (λ (r : TestResolver). r.find_message_by_name key) c (find_message_by_name c key)
    × FirstAnswer
        (λ (r : TestResolver). r.find_extension_by_name key)
        c
        (find_extension_by_name c key)
    × FirstAnswer
        (λ (r : TestResolver). r.find_extension_by_number key 1)
        c
        (find_extension_by_number c key 1)
    × FirstAnswer (λ (r : TestResolver). r.find_message_by_url key) c (find_message_by_url c key)
combined-FirstAnswer_example = combined-FirstAnswer (first ∷ second ∷ []) (codes "c") 1

range_files-distinct_example :
    let c = first ∷ second ∷ [] in
    (range_files (λ p. p) c collect []
      ≡ range (distinct (λ p. p) [] (all_files (λ (r : TestResolver). r.files) c)) collect [])
    × (range_files_by_package (λ p. p) c (codes "p") collect []
        ≡ range
            (distinct
              (λ p. p)
              []
              (all_files (λ (r : TestResolver). r.files_by_package (codes "p")) c))
            collect
            [])
    × NoRepeat (λ p. p) [] (distinct (λ p. p) [] (all_files (λ (r : TestResolver). r.files) c))
range_files-distinct_example =
    range_files-distinct (λ p. p) (first ∷ second ∷ []) collect [] (codes "p") (λ x s. refl)

range_extensions_by_message-all_files_example :
    range_extensions_by_message (λ n. n) (first ∷ second ∷ []) (codes "m") collect []
    ≡ range
        (all_files
          (λ (r : TestResolver). r.extensions_by_message (codes "m"))
          (first ∷ second ∷ []))
        collect
        []
range_extensions_by_message-all_files_example =
    range_extensions_by_message-all_files (λ n. n) (first ∷ second ∷ []) (codes "m") collect []
      ((λ e. ground (arith, e)), ((λ e. ground (arith, e)), tt))

-- The number 1, which both resolvers have, comes twice.
number_twice :
    range_extensions_by_message (λ n. n) (first ∷ second ∷ []) (codes "m") collect []
    ≡ 2 ∷ 1 ∷ 1 ∷ []
unfolding range_extensions_by_message range
number_twice = refl

abbrev pool_of : List Bytes → TypePool Bytes Bytes Bytes
pool_of names = record {
  find_extension_by_name = λ _. not_found;
  find_extension_by_number = λ _ _. not_found;
  find_message_by_name = λ _. not_found;
  find_message_by_url = λ _. not_found;
  find_enum_by_name = λ _. not_found;
  messages = names;
  enums = names;
  extensions = names;
  extensions_by_message = λ _. names;
}
