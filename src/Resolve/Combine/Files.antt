-- ===== src/Resolve/Combine/Files.antt =====
-- RangeFiles and RangeFilesByPackage of protoresolve/combine.go.
use protoreflect.Common.{
  ◌≡◌, ◌≢◌, refl, sym, ap, ◌∙◌, true, false, List, [], ◌∷◌, ◌++◌, Bytes, bytes_eq_iff,
  if◌then◌else◌, Bool-cases, inl, inr, arith,
}
use protoreflect.Resolve.Combine.{
  Callback, range, observed_path, once_per_path, range_files_loop, Resolver, range_files,
  range_files_by_package,
}

-- The callback never wants to stop.
abbrev pub Continues : {A S : Type 0} → Callback A S → Type 0
Continues {A} {S} f = (x : A) (s : S) → (f x s).1 ≡ true

-- The files of all resolvers, one resolver after the other.
abbrev pub all_files : {R File : Type 0} → (R → List File) → List R → List File
all_files files [] = []
all_files files (res ∷ c) = files res ++ all_files files c

module _ {File : Type 0} (path : File → Bytes) where
  -- The files whose path is not among `seen` and did not come before.
  unfoldable pub distinct : List Bytes → List File → List File
  distinct seen [] = []
  distinct seen (x ∷ xs) =
      let later = distinct (path x ∷ seen) xs in
      if observed_path (path x) seen then distinct seen xs else x ∷ later

  -- The paths seen after the files.
  unfoldable pub seen_after : List Bytes → List File → List Bytes
  seen_after seen [] = seen
  seen_after seen (x ∷ xs) =
      seen_after (if observed_path (path x) seen then seen else path x ∷ seen) xs

  distinct-append :
      (seen : List Bytes) (xs ys : List File)
      → distinct seen (xs ++ ys) ≡ distinct seen xs ++ distinct (seen_after seen xs) ys
  unfolding distinct seen_after
  distinct-append seen [] ys = refl
  distinct-append seen (x ∷ xs) ys =
      ground (arith, distinct-append seen xs ys, distinct-append (path x ∷ seen) xs ys)

  module _ {S : Type 0} (f : Callback File S) (go : Continues f) where
    range-append : (xs ys : List File) (s : S) → range (xs ++ ys) f s ≡ range ys f (range xs f s)
    unfolding range
    range-append [] ys s = refl
    range-append (x ∷ xs) ys s = ground (arith, go x s, range-append xs ys (f x s).0)

    range-once_per_path :
        (xs : List File) (seen : List Bytes) (s : S)
        → range xs (once_per_path path f) (seen, s)
          ≡ (seen_after seen xs, range (distinct seen xs) f s)
    unfolding range once_per_path distinct seen_after
    range-once_per_path [] seen s = refl
    range-once_per_path (x ∷ xs) seen s = elim (Bool-cases (observed_path (path x) seen)) [
      | inl old ↦ rw old (range-once_per_path xs seen s)
      | inr new ↦ rw (new, go x s) (range-once_per_path xs (path x ∷ seen) (f x s).0)
    ]

    range_files_loop-distinct :
        {R : Type 0} (files : R → List File) (c : List R) (seen : List Bytes) (s : S)
        → (range_files_loop path files c f (seen, s)).1
          ≡ range (distinct seen (all_files files c)) f s
    unfolding range_files_loop
    range_files_loop-distinct files [] seen s = unfold range distinct in refl
    range_files_loop-distinct files (res ∷ c) seen s =
        let seen' = seen_after seen (files res) in
        ap (λ st. (range_files_loop path files c f st).1) (range-once_per_path (files res) seen s)
        ∙ range_files_loop-distinct files c seen' (range (distinct seen (files res)) f s)
        ∙ sym (
            ap (λ l. range l f s) (distinct-append seen (files res) (all_files files c))
            ∙ range-append (distinct seen (files res)) (distinct seen' (all_files files c)) s)

  -- No path of the list is among `seen`, and no two are the same.
  abbrev pub NoRepeat : List Bytes → List File → Type 0
  NoRepeat seen [] = Unit
  NoRepeat seen (x ∷ xs) = (observed_path (path x) seen ≡ false) × NoRepeat (path x ∷ seen) xs

  distinct-NoRepeat : (seen : List Bytes) (xs : List File) → NoRepeat seen (distinct seen xs)
  unfolding distinct
  distinct-NoRepeat seen [] = tt
  distinct-NoRepeat seen (x ∷ xs) = elim (Bool-cases (observed_path (path x) seen)) [
    | inl old ↦ rw old (distinct-NoRepeat seen xs)
    | inr new ↦ rw new (new, distinct-NoRepeat (path x ∷ seen) xs)
  ]

-- RangeFiles and RangeFilesByPackage hand to a callback that never wants to stop the files of all
-- resolvers, in the order of the resolvers, but for those whose path came before.
pub range_files-distinct :
    {File Desc Msg Ext S : Type 0} (path : File → Bytes) (c : List (Resolver File Desc Msg Ext))
    (f : Callback File S) (s : S) (name : Bytes)
    → Continues f
    → (range_files path c f s
        ≡ range (distinct path [] (all_files (λ (r : Resolver File Desc Msg Ext). r.files) c)) f s)
      × (range_files_by_package path c name f s
          ≡ range
              (distinct path []
                (all_files (λ (r : Resolver File Desc Msg Ext). r.files_by_package name) c))
              f
              s)
      × NoRepeat path []
          (distinct path [] (all_files (λ (r : Resolver File Desc Msg Ext). r.files) c))
unfolding range_files range_files_by_package
range_files-distinct path c f s name go = (
  range_files_loop-distinct path f go _ c [] s,
  range_files_loop-distinct path f go _ c [] s,
  distinct-NoRepeat path [] _,
)

-- A callback that always wants to stop is called again all the same: RangeFiles goes on to the next
-- resolver, and calls it for that resolver's first file if it has another path.
pub range_files-calls_again :
    {File Desc Msg Ext S : Type 0} (path : File → Bytes) (r q : Resolver File Desc Msg Ext)
    (f : Callback File S) (s : S) (x y : File) (xs ys : List File)
    → ((z : File) (t : S) → (f z t).1 ≡ false)
    → r.files ≡ x ∷ xs
    → q.files ≡ y ∷ ys
    → path y ≢ path x
    → range_files path (r ∷ q ∷ []) f s ≡ (f y (f x s).0).0
unfolding range_files range observed_path
range_files-calls_again path r q f s x y xs ys stop hr hq ne =
    rw (hr, hq) (ground (arith, stop x s, stop y (f x s).0, bytes_eq_iff (path y) (path x)))
