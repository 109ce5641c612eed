-- ===== src/Printer/Position/Agree.antt =====
-- findElement of protoprint/print.go and PathFor of sourceloc/sourceloc.go compute the same path.
use protoreflect.Common.{◌≡◌, refl, true, false, [], ◌∷◌, ◌++◌}
use protoreflect.Descriptor.{
  Descriptor, absent, file, message, field, oneof, enum, enum_value, service, method,
}
use protoreflect.SourceLoc.{
  SourcePath, int32, path_loop, path_for, message_tag, field_tag, oneof_tag, enum_tag,
  enum_value_tag, service_tag, method_tag,
}
use protoreflect.SourceLoc.Path.{is_linked}
use protoreflect.Printer.Position.{find_loop, find_element}

find_loop-path_loop :
    (d : Descriptor) (acc : SourcePath) → is_linked d ≡ true → find_loop acc d ≡ path_loop acc d
unfolding find_loop path_loop is_linked message_tag field_tag oneof_tag enum_tag enum_value_tag
    service_tag method_tag
find_loop-path_loop absent acc h = cc
find_loop-path_loop (file _) acc h = refl
find_loop-path_loop (message (file _) i n) acc h = refl
find_loop-path_loop (message (message d j m) i n) acc h =
    find_loop-path_loop (message d j m) (acc ++ int32 i ∷ 3 ∷ []) h
find_loop-path_loop (message (field true _ _ _) i n) acc h = cc
find_loop-path_loop (message (field false _ _ _) i n) acc h = cc
find_loop-path_loop (message _ i n) acc h = cc
find_loop-path_loop (field true (file _) i n) acc h = refl
find_loop-path_loop (field true (message d j m) i n) acc h =
    find_loop-path_loop (message d j m) (acc ++ int32 i ∷ 6 ∷ []) h
find_loop-path_loop (field true (field true _ _ _) i n) acc h = cc
find_loop-path_loop (field true (field false _ _ _) i n) acc h = cc
find_loop-path_loop (field true _ i n) acc h = cc
find_loop-path_loop (field false (message d j m) i n) acc h =
    find_loop-path_loop (message d j m) (acc ++ int32 i ∷ 2 ∷ []) h
find_loop-path_loop (field false (field true _ _ _) i n) acc h = cc
find_loop-path_loop (field false (field false _ _ _) i n) acc h = cc
find_loop-path_loop (field false _ i n) acc h = cc
find_loop-path_loop (oneof (message d j m) i n) acc h =
    find_loop-path_loop (message d j m) (acc ++ int32 i ∷ 8 ∷ []) h
find_loop-path_loop (oneof (field true _ _ _) i n) acc h = cc
find_loop-path_loop (oneof (field false _ _ _) i n) acc h = cc
find_loop-path_loop (oneof _ i n) acc h = cc
find_loop-path_loop (enum (file _) i n) acc h = refl
find_loop-path_loop (enum (message d j m) i n) acc h =
    find_loop-path_loop (message d j m) (acc ++ int32 i ∷ 4 ∷ []) h
find_loop-path_loop (enum (field true _ _ _) i n) acc h = cc
find_loop-path_loop (enum (field false _ _ _) i n) acc h = cc
find_loop-path_loop (enum _ i n) acc h = cc
find_loop-path_loop (enum_value (enum d j m) i n) acc h =
    find_loop-path_loop (enum d j m) (acc ++ int32 i ∷ 2 ∷ []) h
find_loop-path_loop (enum_value (field true _ _ _) i n) acc h = cc
find_loop-path_loop (enum_value (field false _ _ _) i n) acc h = cc
find_loop-path_loop (enum_value _ i n) acc h = cc
find_loop-path_loop (service (file _) i n) acc h = refl
find_loop-path_loop (service (field true _ _ _) i n) acc h = cc
find_loop-path_loop (service (field false _ _ _) i n) acc h = cc
find_loop-path_loop (service _ i n) acc h = cc
find_loop-path_loop (method (service d j m) i n) acc h =
    find_loop-path_loop (service d j m) (acc ++ int32 i ∷ 2 ∷ []) h
find_loop-path_loop (method (field true _ _ _) i n) acc h = cc
find_loop-path_loop (method (field false _ _ _) i n) acc h = cc
find_loop-path_loop (method _ i n) acc h = cc

-- For every linked descriptor findElement returns what PathFor returns: the printer and the
-- sourceloc package agree on where an element stands.
pub find_element-path_for : (d : Descriptor) → is_linked d ≡ true → find_element d ≡ path_for d
unfolding find_element path_for
find_element-path_for d h = find_loop-path_loop d [] h
