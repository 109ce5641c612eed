-- ===== src/Builder/Service/Locations.antt =====
-- The source locations and the descriptor that buildProto of protobuilder/service.go leaves.
use protoreflect.Common.{
  ℕ, suc, ◌+◌, ◌≡◌, refl, sym, ap, ◌∙◌, subst, some, List, [], ◌∷◌, ◌++◌, map, Bytes, length,
  get_elem?, append-nil, append_assoc, length-append, zero, arith,
}
use protoreflect.Tags.{service_methods_tag}
use protoreflect.SourceLoc.{int32}
use protoreflect.Builder.Service.{ServiceHeap, MethodBuilder}
use protoreflect.Builder.Service.Build.{
  Location, MethodProto, ServiceProto, comments_location, add_comments_to, method_proto,
  build_method, build_methods, build_service,
}

-- The locations of a service's methods, the first of which is at index `i`.
unfoldable method_locations : (ℕ → MethodBuilder) → List ℕ → ℕ → List ℕ → List Location
method_locations mtbs path i [] = []
method_locations mtbs path i (m ∷ ms) =
    comments_location (path ++ service_methods_tag ∷ int32 i ∷ []) (mtbs m).comments
    ∷ method_locations mtbs path (suc i) ms

get_elem?-append :
    {A : Type 0} → (xs ys : List A) (i : ℕ) → get_elem? (xs ++ ys) (length xs + i) ≡ get_elem? ys i
get_elem?-append [] ys i = ap (get_elem? ys) (omega arith)
get_elem?-append (x ∷ xs) ys i =
    let next : suc (length xs) + i ≡ suc (length xs + i) = omega arith in
    rw next (get_elem?-append xs ys i)

get_elem?-map :
    {A B : Type 0}
    → (f : A → B) (xs : List A) (i : ℕ) (x : A) → get_elem? xs i ≡ some x
    → get_elem? (map f xs) i ≡ some (f x)
get_elem?-map f [] i x e = absurd (ground (arith, e))
get_elem?-map f (y ∷ ys) zero x e = ground (arith, e)
get_elem?-map f (y ∷ ys) (suc i) x e = get_elem?-map f ys i x e

length-map : {A B : Type 0} → (f : A → B) (xs : List A) → length (map f xs) ≡ length xs
length-map f [] = refl
length-map f (x ∷ xs) = ap suc (length-map f xs)

module _ (full_name : ℕ → Bytes) (mtbs : ℕ → MethodBuilder) (path : List ℕ) where
  length-method_locations :
      (i : ℕ) (ms : List ℕ) → length (method_locations mtbs path i ms) ≡ length ms
  unfolding method_locations
  length-method_locations i [] = refl
  length-method_locations i (m ∷ ms) = ap suc (length-method_locations (suc i) ms)

  get_elem?-method_locations :
      (k i : ℕ) (ms : List ℕ) (m : ℕ)
      → get_elem? ms i ≡ some m
      → get_elem? (method_locations mtbs path k ms) i
        ≡ some
            (comments_location (path ++ service_methods_tag ∷ int32 (k + i) ∷ []) (mtbs m).comments)
  unfolding method_locations
  get_elem?-method_locations k i [] m e = absurd (ground (arith, e))
  get_elem?-method_locations k zero (w ∷ ms) m e =
      let same : w ≡ m = ground (arith, e) in
      let here : k + 0 ≡ k = omega arith in rw (same, here) refl
  get_elem?-method_locations k (suc i) (w ∷ ms) m e =
      let next : k + suc i ≡ suc k + i = omega arith in
      rw next (get_elem?-method_locations (suc k) i ms m e)

  build_methods_loop :
      (ms : List ℕ) (done : List MethodProto) (info : List Location)
      → build_methods full_name mtbs path ms done info ≡ (
        done ++ map (λ m. method_proto full_name (mtbs m)) ms,
        info ++ method_locations mtbs path (length done) ms,
      )
  unfolding build_methods build_method add_comments_to method_locations
  build_methods_loop [] done info = rw (append-nil done, append-nil info) refl
  build_methods_loop (m ∷ ms) done info =
      let mtd = method_proto full_name (mtbs m) in
      let loc =
        comments_location (path ++ service_methods_tag ∷ int32 (length done) ∷ [])
          (mtbs m).comments in
      let count : length (done ++ mtd ∷ []) ≡ suc (length done) =
        omega (arith, length-append done (mtd ∷ [])) in
      build_methods_loop ms (done ++ mtd ∷ []) (info ++ loc ∷ [])
      ∙ rw (count, append_assoc done (mtd ∷ []), append_assoc info (loc ∷ [])) refl

module _ (full_name : ℕ → Bytes) (h : ServiceHeap) (s : ℕ) (path : List ℕ)
    (info : List Location) where
  abbrev pub IsBuilt : ServiceProto × List Location → Type 0
  IsBuilt r =
      let sb = h.services s in
      (length r.0.methods ≡ length sb.methods)
      × (length r.1 ≡ length info + suc (length sb.methods))
      × (get_elem? r.1 (length info) ≡ some (comments_location path sb.comments))
      × ((i m : ℕ)
          → get_elem? sb.methods i ≡ some m
          → (get_elem? r.0.methods i ≡ some (method_proto full_name (h.mtbs m)))
            × (get_elem? r.1 (length info + suc i)
                ≡ some (
                    comments_location (path ++ service_methods_tag ∷ int32 i ∷ [])
                      (h.mtbs m).comments)))

  abbrev protos : List MethodProto
  protos = map (λ m. method_proto full_name (h.mtbs m)) (h.services s).methods

  abbrev locations : List Location
  locations =
      comments_location path (h.services s).comments
      ∷ method_locations h.mtbs path 0 (h.services s).methods

  build_service_lists : build_service full_name h s path info ≡ (
    record { name = (h.services s).name; options = (h.services s).options; methods = protos },
    info ++ locations,
  )
  unfolding build_service add_comments_to
  build_service_lists =
      rw
        (
          build_methods_loop full_name h.mtbs path (h.services s).methods []
              (info ++ comments_location path (h.services s).comments ∷ []),
          append_assoc info (comments_location path (h.services s).comments ∷ []),
        )
        refl

  locations_lem : (i : ℕ) → get_elem? (info ++ locations) (length info + i) ≡ get_elem? locations i
  locations_lem i = get_elem?-append info locations i

  count_lem : length (info ++ locations) ≡ length info + suc (length (h.services s).methods)
  count_lem =
      length-append info locations
      ∙ ap (λ n. length info + suc n)
          (length-method_locations full_name h.mtbs path 0 (h.services s).methods)

  first_location :
      get_elem? (info ++ locations) (length info)
      ≡ some (comments_location path (h.services s).comments)
  first_location =
      let here : length info + 0 ≡ length info = omega arith in
      subst (λ n. get_elem? (info ++ locations) n ≡ get_elem? locations 0) here (locations_lem 0)

-- The descriptor of a service has the descriptors of its methods in their order, and buildProto
-- appends one source location for the service and one for each method, in that order: the location
-- of the method at index `i` has the service's path with the tag of methods and `i` modulo 2^32 behind
-- it, as int32 leaves it, and that method's comments.
pub build_service_result :
    (full_name : ℕ → Bytes) (h : ServiceHeap) (s : ℕ) (path : List ℕ) (info : List Location)
    → IsBuilt full_name h s path info (build_service full_name h s path info)
build_service_result full_name h s path info =
    subst (IsBuilt full_name h s path info) (sym (build_service_lists full_name h s path info)) (
      length-map (λ m. method_proto full_name (h.mtbs m)) (h.services s).methods,
      count_lem full_name h s path info,
      first_location full_name h s path info,
      λ i m e. (
        get_elem?-map (λ m. method_proto full_name (h.mtbs m)) (h.services s).methods i m e,
        locations_lem full_name h s path info (suc i)
            ∙ get_elem?-method_locations full_name h.mtbs path 0 i (h.services s).methods m e
            ∙ (let here : 0 + i ≡ i = omega arith in rw here refl),
      ),
    )
