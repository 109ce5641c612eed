-- ===== src/Resolve/Symbols/Examples.antt =====
-- Searches in a small file of the package "p".
use protoreflect.Common.{◌≡◌, refl, none, some, [], ◌∷◌, codes, bytes_eq, has_prefix}
use protoreflect.Resolve.Symbols.{
  EnumNode, MessageBody, message_node, no_messages, more_messages, FileNode, field_symbol,
  enum_value_symbol, by_name, service_by_name, message_by_name, or_else, as_message, value_in_enums,
  find_symbol_in_message, find_in_messages, find_symbol_in_file, split_dots, trim_prefix,
  find_parts, find_descriptor_by_name_in_file,
}
use protoreflect.Resolve.Symbols.Sound.{IsNamed, find_descriptor_by_name_in_file-IsNamed}

abbrev color : EnumNode
color = record { name = codes "Color"; values = codes "RED" ∷ [] }

abbrev inner_body : MessageBody
inner_body = record {
  name = codes "In";
  fields = codes "id" ∷ [];
  oneofs = [];
  enums = color ∷ [];
  extensions = [];
}

abbrev outer_body : MessageBody
outer_body = record { name = codes "Out"; fields = []; oneofs = []; enums = []; extensions = [] }

abbrev small_file : FileNode
small_file = record {
  package_name = codes "p";
  messages =
      more_messages
        (message_node outer_body (more_messages (message_node inner_body no_messages) no_messages))
        no_messages;
  enums = [];
  extensions = [];
  services = record { name = codes "Svc"; methods = codes "Get" ∷ [] } ∷ [];
}

field_found :
    find_descriptor_by_name_in_file small_file (codes "p.Out.In.id")
    ≡ some (field_symbol (codes "id"))
unfolding find_descriptor_by_name_in_file trim_prefix find_parts split_dots find_symbol_in_file
    find_in_messages find_symbol_in_message service_by_name message_by_name or_else as_message
    by_name value_in_enums bytes_eq has_prefix
field_found = refl

-- The value of an enum stands in the scope of the enum.
value_found :
    find_descriptor_by_name_in_file small_file (codes "p.Out.In.RED")
    ≡ some (enum_value_symbol color (codes "RED"))
unfolding find_descriptor_by_name_in_file trim_prefix find_parts split_dots find_symbol_in_file
    find_in_messages find_symbol_in_message service_by_name message_by_name or_else as_message
    by_name value_in_enums bytes_eq has_prefix
value_found = refl

other_package : find_descriptor_by_name_in_file small_file (codes "q.Out") ≡ none
unfolding find_descriptor_by_name_in_file trim_prefix find_parts split_dots find_symbol_in_file
    find_in_messages find_symbol_in_message service_by_name message_by_name or_else as_message
    by_name value_in_enums bytes_eq has_prefix
other_package = refl

find_descriptor_by_name_in_file-IsNamed_example :
    IsNamed small_file (codes "p.Out.In.id") (field_symbol (codes "id"))
find_descriptor_by_name_in_file-IsNamed_example =
    find_descriptor_by_name_in_file-IsNamed small_file (codes "p.Out.In.id")
      (field_symbol (codes "id")) field_found
