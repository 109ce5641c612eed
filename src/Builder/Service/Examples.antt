-- ===== src/Builder/Service/Examples.antt =====
-- Runs of the operations of protobuilder/service.go on two methods, and the theorems at these inputs.
use protoreflect.Common.{
  ℕ, ◌≡◌, refl, Bool, true, false, none, some, [], ◌∷◌, Bytes, codes, ◌==◌, if◌then◌else◌, bytes_eq,
}
use protoreflect.Builder.Enum.{
  no_comments, already_contains, put, write, try_add_value, try_remove_value, try_set_name,
}
use protoreflect.Builder.Service.{
  MessageRef, local_type, foreign_type, RpcType, MethodBuilder, ServiceHeap, type_name,
  try_add_method, try_remove_method, try_set_method_name, add_method_symbol, attach_method,
  unlink_method, is_method_of, renamed_method, notify_service, settle_method,
}
use protoreflect.Builder.Service.View.{view, view_result}
use protoreflect.Builder.Service.Simulation.{try_add_method-try_add_value}
use protoreflect.Builder.Service.Result.{
  AllNew, adds, renames, Run, start, then_step, IsConsistent, Run-IsConsistent,
}
use protoreflect.Builder.Service.Build.{build_service, method_proto}
use protoreflect.Builder.Service.Locations.{IsBuilt, build_service_result}

abbrev unary : MessageRef → RpcType
unary t = record { is_stream = false; message = t }

abbrev method_named : Bytes → MethodBuilder
method_named n = record {
  name = n;
  parent = none;
  comments = no_comments;
  options = none;
  req_type = unary (local_type 4);
  resp_type = record { is_stream = true; message = foreign_type (codes "google.protobuf.Empty") };
}

abbrev new_heap : ServiceHeap
new_heap = record {
  services = λ _. record {
    name = codes "Greeter";
    comments = no_comments;
    options = none;
    methods = [];
    symbols = λ _. none;
  };
  mtbs = λ m. method_named (if m == 1 then codes "Bye" else codes "Hello");
}

new_heap-AllNew : AllNew new_heap
new_heap-AllNew = record { no_parent = λ m. refl; no_methods = λ s. refl; no_symbols = λ s n. refl }

-- Hello is added to service 0, and Bye; then Bye is renamed Hello, which is refused.
abbrev two_methods : ServiceHeap
two_methods = (try_add_method (try_add_method new_heap 0 0).0 0 1).0

abbrev any_name : Bytes → Bool
any_name _ = true

abbrev two_calls : Run any_name new_heap two_methods
two_calls =
    then_step (then_step start (adds new_heap 0 0)) (adds (try_add_method new_heap 0 0).0 0 1)

Run-IsConsistent_example :
    IsConsistent (try_set_method_name any_name two_methods 1 (codes "Hello")).0
Run-IsConsistent_example =
    Run-IsConsistent new_heap-AllNew (then_step two_calls (renames two_methods 1 (codes "Hello")))

rename_refused :
    (try_set_method_name any_name two_methods 1 (codes "Hello")).1 ≡ some already_contains
unfolding try_set_method_name renamed_method notify_service settle_method is_method_of
    try_add_method add_method_symbol attach_method unlink_method put write bytes_eq
rename_refused = refl

try_add_method-try_add_value_example :
    (try_add_value (view two_methods) 3 1 ≡ view_result (try_add_method two_methods 3 1))
    × (try_remove_value (view two_methods) 3 (codes "Bye")
        ≡ view_result (try_remove_method two_methods 3 (codes "Bye")))
    × (try_set_name any_name (view two_methods) 1 (codes "Bye")
        ≡ view_result (try_set_method_name any_name two_methods 1 (codes "Bye")))
try_add_method-try_add_value_example =
    try_add_method-try_add_value any_name two_methods 3 1 (codes "Bye")

abbrev full_name : ℕ → Bytes
full_name _ = codes "pkg.Request"

build_service_result_example :
    IsBuilt full_name two_methods 0
      (6 ∷ 0 ∷ [])
      []
      (build_service full_name two_methods 0 (6 ∷ 0 ∷ []) [])
build_service_result_example = build_service_result full_name two_methods 0 (6 ∷ 0 ∷ []) []

input_of_hello : (method_proto full_name (two_methods.mtbs 0)).input_type ≡ codes ".pkg.Request"
unfolding method_proto type_name try_add_method add_method_symbol attach_method unlink_method put
    write bytes_eq
input_of_hello = refl
