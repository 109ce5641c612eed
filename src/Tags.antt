-- ===== src/Tags.antt =====
-- internal/util.go: the tag numbers of the elements of descriptor protos, the limits on field
-- numbers, and the small helpers on them.
use protoreflect.Common.{ℕ, ◌-◌, ◌^◌, Bool, if◌then◌else◌}

abbrev pub max_normal_tag : ℕ
max_normal_tag = 536870911

-- math.MaxInt32 - 1
abbrev pub max_message_set_tag : ℕ
max_message_set_tag = 2 ^ 31 - 1 - 1

abbrev pub max_tag : ℕ
max_tag = max_message_set_tag

abbrev pub special_reserved_start : ℕ
special_reserved_start = 19000

abbrev pub special_reserved_end : ℕ
special_reserved_end = 19999

abbrev pub file_package_tag : ℕ
file_package_tag = 2

abbrev pub file_dependency_tag : ℕ
file_dependency_tag = 3

abbrev pub file_messages_tag : ℕ
file_messages_tag = 4

abbrev pub file_enums_tag : ℕ
file_enums_tag = 5

abbrev pub file_services_tag : ℕ
file_services_tag = 6

abbrev pub file_extensions_tag : ℕ
file_extensions_tag = 7

abbrev pub file_options_tag : ℕ
file_options_tag = 8

abbrev pub message_fields_tag : ℕ
message_fields_tag = 2

abbrev pub message_nested_messages_tag : ℕ
message_nested_messages_tag = 3

abbrev pub message_enums_tag : ℕ
message_enums_tag = 4

abbrev pub message_extension_range_tag : ℕ
message_extension_range_tag = 5

abbrev pub message_extensions_tag : ℕ
message_extensions_tag = 6

abbrev pub message_options_tag : ℕ
message_options_tag = 7

abbrev pub message_oneofs_tag : ℕ
message_oneofs_tag = 8

abbrev pub message_reserved_range_tag : ℕ
message_reserved_range_tag = 9

abbrev pub message_reserved_name_tag : ℕ
message_reserved_name_tag = 10

abbrev pub enum_values_tag : ℕ
enum_values_tag = 2

abbrev pub enum_options_tag : ℕ
enum_options_tag = 3

abbrev pub service_methods_tag : ℕ
service_methods_tag = 2

abbrev pub service_options_tag : ℕ
service_options_tag = 3

-- GetMaxTag
unfoldable pub get_max_tag : Bool → ℕ
get_max_tag is_message_set = if is_message_set then max_message_set_tag else max_normal_tag

abbrev pub extension_range_options_tag : ℕ
extension_range_options_tag = 3

abbrev pub field_options_tag : ℕ
field_options_tag = 8

abbrev pub oneof_options_tag : ℕ
oneof_options_tag = 2

abbrev pub enum_reserved_range_tag : ℕ
enum_reserved_range_tag = 4

abbrev pub enum_reserved_name_tag : ℕ
enum_reserved_name_tag = 5

abbrev pub enum_value_options_tag : ℕ
enum_value_options_tag = 3

abbrev pub method_options_tag : ℕ
method_options_tag = 4
