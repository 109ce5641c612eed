-- ===== src/Builder/Message/Synthetic.antt =====
-- The oneofs that processProto3OptionalFields of protobuilder/message.go adds.
use protoreflect.Common.{
  ℕ, suc, ◌≡◌, refl, sym, ap, ◌∙◌, Bool, true, false, Option, none, some, List, [], ◌∷◌, ◌++◌,
  Bytes, if◌then◌else◌, bytes_eq, bytes_eq_iff, length, length-append, append_assoc, append-nil,
  All, Bool-cases, inl, inr, arith,
}
use protoreflect.Builder.Numbers.{to_int32}
use protoreflect.Builder.Message.Optional.{
  FieldProto, MessageProto, has, all_names, oneof_name, free_name, cached_names, process_loop,
  process_proto3_optional_fields, count_long-length, free_name_fuel,
}

-- The names differ from one another.
abbrev pub AllDiffer : List Bytes → Type 0
AllDiffer [] = Unit
AllDiffer (n ∷ ns) = (has ns n ≡ false) × AllDiffer ns

-- The fields, where the optional ones point to the oneofs from the index `k` on, in order.
unfoldable pub marked : ℕ → List FieldProto → List FieldProto
marked k [] = []
marked k (fd ∷ fds) =
    let plain = fd ∷ marked k fds in
    let given = record fd { oneof_index = some (to_int32 k) } ∷ marked (suc k) fds in
    if fd.proto3_optional then given else plain

unfoldable pub optional_count : List FieldProto → ℕ
optional_count [] = 0
optional_count (fd ∷ fds) =
    if fd.proto3_optional then suc (optional_count fds) else optional_count fds

-- What the loop leaves when `names` are taken.
abbrev pub AreAdded :
    List Bytes → List Bytes → List FieldProto → Option (List FieldProto × List Bytes) → Type 0
AreAdded names oneofs fds r =
    (added : List Bytes) × (r ≡ some (marked (length oneofs) fds, oneofs ++ added))
    × (length added ≡ optional_count fds)
    × All (λ n. has names n ≡ false) added
    × AllDiffer added

fresh_cons :
    (m n : Bytes) (names : List Bytes)
    → has (m ∷ names) n ≡ false
    → (has names n ≡ false) × (bytes_eq n m ≡ false)
unfolding has
fresh_cons m n names h = ground (arith, h)

absent_cons :
    (m n : Bytes) (added : List Bytes)
    → has added m ≡ false
    → bytes_eq n m ≡ false
    → has (n ∷ added) m ≡ false
unfolding has
absent_cons m n added absent other =
    ground (arith, absent, other, bytes_eq_iff m n, bytes_eq_iff n m)

absent_nil : (m : Bytes) → has [] m ≡ false
unfolding has
absent_nil m = refl

fresh_rest :
    (m : Bytes) (names added : List Bytes)
    → All (λ n. has (m ∷ names) n ≡ false) added
    → All (λ n. has names n ≡ false) added × (has added m ≡ false)
fresh_rest m names [] h = (tt, absent_nil m)
fresh_rest m names (n ∷ added) (h, hs) =
    let (fresh, other) = fresh_cons m n names h in
    let (rest, absent) = fresh_rest m names added hs in
    ((fresh, rest), absent_cons m n added absent other)

if_true : {A : Type 0} → (b : Bool) (x y : A) → b ≡ true → (if b then x else y) ≡ x
if_true b x y e = rw e refl

module _ (all : List Bytes) (fd : FieldProto) (fds : List FieldProto) (cache : Option (List Bytes))
    (oneofs : List Bytes) where
  plain_step :
      fd.proto3_optional ≡ false
      → AreAdded (cached_names all cache) oneofs fds (process_loop all cache oneofs fds)
      → AreAdded
          (cached_names all cache)
          oneofs
          (fd ∷ fds)
          (process_loop all cache oneofs (fd ∷ fds))
  unfolding process_loop marked optional_count
  plain_step plain (added, e, count, fresh, differ) =
      (added, rw (plain, e) refl, rw plain count, fresh, differ)

  optional_step :
      (n : Bytes)
      → fd.proto3_optional ≡ true
      → free_name
          (suc (length (cached_names all cache)))
          (cached_names all cache)
          (oneof_name fd.name)
        ≡ some n
      → has (cached_names all cache) n ≡ false
      → AreAdded
          (n ∷ cached_names all cache)
          (oneofs ++ n ∷ [])
          fds
          (process_loop all (some (n ∷ cached_names all cache)) (oneofs ++ n ∷ []) fds)
      → AreAdded
          (cached_names all cache)
          oneofs
          (fd ∷ fds)
          (process_loop all cache oneofs (fd ∷ fds))
  unfolding process_loop marked optional_count
  optional_step n optional found free (added, e, count, fresh, differ) =
      let (rest, absent) = fresh_rest n (cached_names all cache) added fresh in
      let next : length (oneofs ++ n ∷ []) ≡ suc (length oneofs) =
        omega (arith, length-append oneofs (n ∷ [])) in
      (
        n ∷ added,
        if_true fd.proto3_optional _ _ optional
            ∙ rw (found, e, next, append_assoc oneofs (n ∷ []) added) refl
            ∙ ap (λ l. some (l, oneofs ++ n ∷ added))
                (sym (if_true fd.proto3_optional _ _ optional)),
        rw optional (ap suc count),
        (free, rest),
        (absent, differ),
      )

process_loop-AreAdded :
    (all : List Bytes) (fds : List FieldProto) (cache : Option (List Bytes)) (oneofs : List Bytes)
    → AreAdded (cached_names all cache) oneofs fds (process_loop all cache oneofs fds)
unfolding process_loop marked optional_count
process_loop-AreAdded all [] cache oneofs =
    ([], ap (λ l. some ([], l)) (sym (append-nil oneofs)), refl, tt, tt)
process_loop-AreAdded all (fd ∷ fds) cache oneofs = elim (Bool-cases fd.proto3_optional) [
  | inr plain ↦
      plain_step all fd fds cache oneofs plain (process_loop-AreAdded all fds cache oneofs)
  | inl optional ↦
      let names = cached_names all cache in
      let (n, found, free) =
        free_name_fuel (suc (length names)) names (oneof_name fd.name)
          (omega (arith, count_long-length (length (oneof_name fd.name)) names)) in
      optional_step all fd fds cache oneofs n optional found free
        (process_loop-AreAdded all fds (some (n ∷ names)) (oneofs ++ n ∷ []))
]

-- processProto3OptionalFields always ends. It adds one oneof for each proto3 optional field behind
-- those that are there; the names of the new oneofs differ from one another and from the names of
-- all fields, oneofs, extensions, enums, enum values, nested messages and reserved names of the
-- message; the optional fields point to the new oneofs in order, and nothing else changes.
pub process_proto3_optional_fields_result :
    (msgd : MessageProto)
    → (added : List Bytes) × (process_proto3_optional_fields msgd
        ≡ some (record msgd {
          fields = marked (length msgd.oneof_decls) msgd.fields;
          oneof_decls = msgd.oneof_decls ++ added;
        }))
      × (length added ≡ optional_count msgd.fields)
      × All (λ n. has (all_names msgd) n ≡ false) added
      × AllDiffer added
process_proto3_optional_fields_result msgd =
    let (added, e, count, fresh, differ) =
      process_loop-AreAdded (all_names msgd) msgd.fields none msgd.oneof_decls in
    (added, ended msgd added e, count, fresh, differ)
  where
    ended :
        (msgd : MessageProto) (added : List Bytes)
        → process_loop (all_names msgd) none msgd.oneof_decls msgd.fields
          ≡ some (marked (length msgd.oneof_decls) msgd.fields, msgd.oneof_decls ++ added)
        → process_proto3_optional_fields msgd
          ≡ some (record msgd {
            fields = marked (length msgd.oneof_decls) msgd.fields;
            oneof_decls = msgd.oneof_decls ++ added;
          })
    ended msgd added e =
        unfold process_proto3_optional_fields in rw (e, process_proto3_optional_fields) refl
