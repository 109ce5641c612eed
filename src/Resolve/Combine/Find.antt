-- ===== src/Resolve/Combine/Find.antt =====
-- The Find methods of protoresolve/combine.go.
use protoreflect.Common.{ℕ, ◌≡◌, ◌≢◌, refl, List, [], ◌∷◌, ◌++◌, Bytes, arith}
use protoreflect.Resolve.Combine.{
  Result, found, not_found, failed, find_first, Resolver, find_file_by_path,
  find_descriptor_by_name, find_message_by_name, find_extension_by_name, find_extension_by_number,
  find_message_by_url,
}

-- The first answer that is not `not_found`.
abbrev pub or_next {ℓ} : {A : Type ℓ} → Result A → Result A → Result A
or_next not_found r = r
or_next (found a) r = found a
or_next (failed e) r = failed e

-- Asking a combination of two lists of resolvers is asking the first list, and then, if that does
-- not know the element, the second; an element or a failure of the first list is final.
pub find_first-append :
    {R A : Type 0} (query : R → Result A) (c d : List R)
    → find_first query (c ++ d) ≡ or_next (find_first query c) (find_first query d)
unfolding find_first
find_first-append query [] d = refl
find_first-append query (res ∷ c) d = ground (arith, find_first-append query c d)

-- `o` is the answer of the first resolver whose answer is not NotFound, and NotFound if all say so.
pub data FirstAnswer {R A : Type 0} (query : R → Result A) : List R → Result A → Type 0 where
  none_knows : FirstAnswer query [] not_found
  skip :
      {res : R} {c : List R} {o : Result A}
      → query res ≡ not_found
      → FirstAnswer query c o
      → FirstAnswer query (res ∷ c) o
  answers :
      {res : R} {c : List R} {o : Result A}
      → query res ≡ o
      → o ≢ not_found
      → FirstAnswer query (res ∷ c) o

find_first-FirstAnswer :
    {R A : Type 0} (query : R → Result A) (c : List R) → FirstAnswer query c (find_first query c)
unfolding find_first
find_first-FirstAnswer query [] = none_knows
find_first-FirstAnswer {A} query (res ∷ c) =
    by_answer (query res) refl (find_first-FirstAnswer query c)
  where
    by_answer :
        (o : Result A)
        → query res ≡ o
        → FirstAnswer query c (find_first query c)
        → FirstAnswer query
            (res ∷ c)
            (elim o [ not_found ↦ find_first query c | found a ↦ found a | failed e ↦ failed e ])
    by_answer not_found e ih = skip e ih
    by_answer (found a) e ih = answers e (cc)
    by_answer (failed x) e ih = answers e (cc)

-- Each of the six Find methods of a combined resolver answers what the first of its resolvers
-- answers that does not say NotFound, an error included, and NotFound if all of them say so.
pub combined-FirstAnswer :
    {File Desc Msg Ext : Type 0} (c : List (Resolver File Desc Msg Ext)) (key : Bytes) (n : ℕ)
    → FirstAnswer
        (λ (r : Resolver File Desc Msg Ext). r.find_file_by_path key)
        c
        (find_file_by_path c key)
      × FirstAnswer
          (λ (r : Resolver File Desc Msg Ext). r.find_descriptor_by_name key)
          c
          (find_descriptor_by_name c key)
      × FirstAnswer
          (λ (r : Resolver File Desc Msg Ext). r.find_message_by_name key)
          c
          (find_message_by_name c key)
      × FirstAnswer
          (λ (r : Resolver File Desc Msg Ext). r.find_extension_by_name key)
          c
          (find_extension_by_name c key)
      × FirstAnswer
          (λ (r : Resolver File Desc Msg Ext). r.find_extension_by_number key n)
          c
          (find_extension_by_number c key n)
      × FirstAnswer
          (λ (r : Resolver File Desc Msg Ext). r.find_message_by_url key)
          c
          (find_message_by_url c key)
unfolding find_file_by_path find_descriptor_by_name find_message_by_name find_extension_by_name
    find_extension_by_number find_message_by_url
combined-FirstAnswer c key n = (
  find_first-FirstAnswer _ c,
  find_first-FirstAnswer _ c,
  find_first-FirstAnswer _ c,
  find_first-FirstAnswer _ c,
  find_first-FirstAnswer _ c,
  find_first-FirstAnswer _ c,
)
