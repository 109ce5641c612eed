-- ===== src/Builder/Service/Build.antt =====
-- buildProto of protobuilder/service.go, with addCommentsTo of protobuilder/builder.go: the
-- descriptor of a service and the source locations that hold its comments.
use protoreflect.Common.{
  ℕ, Bool, true, Option, none, some, List, [], ◌∷◌, ◌++◌, Bytes, codes, if◌then◌else◌, length,
}
use protoreflect.Tags.{service_methods_tag}
use protoreflect.SourceLoc.{int32}
use protoreflect.Builder.Enum.{Comments}
use protoreflect.Builder.Service.{ServiceHeap, MethodBuilder, RpcType, type_name}

-- SourceCodeInfo_Location, its path as 32-bit patterns. Its span is always 0, 0, 0.
pub record Location : Type 0 where
  pub leading_detached_comments : List Bytes
  pub leading_comments : Option Bytes
  pub trailing_comments : Option Bytes
  pub path : List ℕ
  pub span : List ℕ

-- if c != "" { proto.String(c) }
unfoldable pub non_empty : Bytes → Option Bytes
non_empty [] = none
non_empty (c ∷ cs) = some (c ∷ cs)

-- The location that addCommentsTo appends.
unfoldable pub comments_location : List ℕ → Comments → Location
comments_location path c = record {
  leading_detached_comments = c.leading_detached_comments;
  leading_comments = non_empty c.leading_comment;
  trailing_comments = non_empty c.trailing_comment;
  path = path;
  span = 0 ∷ 0 ∷ 0 ∷ [];
}

-- addCommentsTo
unfoldable pub add_comments_to : List Location → List ℕ → Comments → List Location
add_comments_to info path c = info ++ comments_location path c ∷ []

-- MethodDescriptorProto
pub record MethodProto : Type 0 where
  pub name : Bytes
  pub options : Option Bytes
  pub input_type : Bytes
  pub output_type : Bytes
  pub client_streaming : Option Bool
  pub server_streaming : Option Bool

-- ServiceDescriptorProto
pub record ServiceProto : Type 0 where
  pub name : Bytes
  pub options : Option Bytes
  pub methods : List MethodProto

-- if t.IsStream { proto.Bool(true) }
unfoldable pub streaming : RpcType → Option Bool
streaming t = if t.is_stream then some true else none

-- MethodBuilder.buildProto, but for its comments: `full_name` is FullName on message builders
unfoldable pub method_proto : (ℕ → Bytes) → MethodBuilder → MethodProto
unfolding streaming
method_proto full_name mtb = record {
  name = mtb.name;
  options = mtb.options;
  input_type = codes "." ++ type_name full_name mtb.req_type;
  output_type = codes "." ++ type_name full_name mtb.resp_type;
  client_streaming = streaming mtb.req_type;
  server_streaming = streaming mtb.resp_type;
}

-- MethodBuilder.buildProto: the descriptor, and the source info behind it
unfoldable pub build_method :
    (ℕ → Bytes) → List ℕ → List Location → MethodBuilder → MethodProto × List Location
build_method full_name path info mtb =
    (method_proto full_name mtb, add_comments_to info path mtb.comments)

-- The loop over the methods; `done` are the descriptors so far. The index goes into the path by int32.
unfoldable pub build_methods :
    (ℕ → Bytes)
    → (ℕ → MethodBuilder)
    → List ℕ
    → List ℕ
    → List MethodProto
    → List Location
    → List MethodProto × List Location
unfolding build_method
build_methods full_name mtbs path [] done info = (done, info)
build_methods full_name mtbs path (m ∷ ms) done info =
    let (mtd, info1) =
      build_method full_name (path ++ service_methods_tag ∷ int32 (length done) ∷ []) info
        (mtbs m) in
    build_methods full_name mtbs path ms (done ++ mtd ∷ []) info1

-- ServiceBuilder.buildProto
unfoldable pub build_service :
    (ℕ → Bytes) → ServiceHeap → ℕ → List ℕ → List Location → ServiceProto × List Location
unfolding build_methods
build_service full_name h s path info =
    let sb = h.services s in
    let (methods, info1) =
      build_methods full_name h.mtbs path sb.methods [] (add_comments_to info path sb.comments) in
    (record { name = sb.name; options = sb.options; methods = methods }, info1)
