-- ===== src/Lib.antt =====
-- protoreflect: utilities for Protocol Buffers descriptors in Go. The development models the
-- parts below as functions on records and data types, with theorems about them.
--
--   Common: tests on numbers, lists with native lengths, byte strings (Common/Text) and
--     integers (Common/Int) that the parts share.
--   Escape: the escapes of byte strings, encodeDefaultBytes of
--     internal/fielddefault/field_default.go and quotedBytes of protoprint/print.go;
--     Escape/Read says how a compiler reads them.
--   Files: internal/sort/sort.go, SortFiles and addFileSorted.
--   Tags: the constants of internal/util.go: the field numbers of descriptor.proto and the
--     tag limits.
--   Descriptor: what the code asks a protoreflect descriptor for: its kind, its parent and
--     its index. Descriptor/Kind is protoresolve/kind.go.
--   SourceLoc: sourceloc/sourceloc.go. PathFor is path_for, enclosingParent is
--     enclosing_parent, ForExtendBlock and its siblings are for_extend_block and its
--     siblings. SourceLoc/Path and its children say what a source path means and relate
--     PathFor to it, SourceLoc/Span is about spans, SourceLoc/Enclosing about the walk over
--     `Next`.
--   Printer: protoprint. Printer/Position is findElement, isSpanWithin and findExtSi of
--     print.go, on the location type of SourceLoc; the nil slice that findElement returns for
--     a file and the empty one that PathFor returns are both the empty path. Printer/Item is
--     elementAddrs.at, what an element address leads to; Printer/Order is the built-in order
--     of elements, elementAddrs.Less; Printer/Element is protoprint/sort.go; Printer/Custom
--     is customSortOrder.Less and elementSrcOrder.Less. Printer/Extras is
--     protoprint/source_locs.go with PathKey of internal/util.go. Printer/Qualify is
--     qualifyElementName. A panic is `none`.
--   Resolve: protoresolve. Resolve/Combine and Resolve/Pool are combine.go: the resolvers
--     that are combined are records of functions, and a callback is a function on the state
--     that it changes. Resolve/Symbols is FindDescriptorByNameInFile of helpers.go on a tree
--     of descriptors. Resolve/Errors is the error type of errors.go.
--   Builder: protobuilder. Builder/Enum is enum.go with the shared operations of builder.go:
--     enums and values live in a heap and name each other by address. Builder/Numbers is the
--     numbering of buildProto.
--   Builder/Service: service.go, with services, methods and the messages that a method names
--     in a heap of its own; Builder/Service/View maps it to the heap of enums, on which its
--     operations are those of Builder/Enum. Builder/Service/Build is buildProto with the
--     comments that it puts into the source info.
--   Builder/Message: message.go and field.go. Builder/Message is the heap of messages,
--     fields, oneofs and enums, Remove is removeChild and Unlink, Register is addSymbol,
--     addTag and registerField, Add is the operations that add and remove elements, Number is
--     TrySetNumber, Choice is TryAddChoice and TryRemoveChoice, Rename is TrySetName, Make is
--     the constructors and the setters. Of buildProto, Assign gives out field numbers and
--     Optional adds the oneofs of proto3 optional fields. Tags says what the tags of a
--     message are; Moved, Renumber, Unlinked, UnlinkField, AddTags, AddField, AddChoice,
--     TryChoice, AddOneOf and TryAddOneOf are the steps to show that the operations keep
--     them, and FieldRun is any sequence of these.
--   Remote: protoresolve/remotereg. Remote/Options is options, singleOption and maybeWrap of
--     converter.go, with the order of options; Remote/Options/Default is defaultValueString,
--     and DefaultValue of internal/fielddefault/field_default.go. Remote/Urls is URLForType
--     and RegisterPackageBaseURL of remote_registry.go, and TypeNameFromURL of
--     protoresolve/helpers.go; Remote/Urls/Nearest says which package's base URL is found.
--     Remote/Types is RegisterMessage, RegisterEnum and their siblings with a URL.
--     Remote/Fields is descriptorAsField and createFieldDescriptor of converter.go.
--
-- The state of the builders is a heap of enum builders and of value builders, both by address.
-- An enum has its children in order and a map from names to children, a value has a pointer to
-- its parent; the invariant (Builder/Enum/Invariant) says that the three agree. Every operation
-- is a function from the heap to the heap and its error. The heaps of services and of messages
-- are made the same way. A builder that a file holds has no parent in these heaps, since files
-- are not in them.
--
-- Bounds and fuel: an index goes into a source path as int32 does, modulo 2^32, also where
-- buildProto of services makes the path of a method's comments. The loops over `Next` of source
-- locations run on fuel, one round for each location and one more; that it is enough is part of
-- the theorems, from the documented behaviour of `Next`. The loop of qualifyElementName has fuel
-- for each byte of the scope it starts with and one round more, which is enough since each round
-- shortens the scope. addFileSorted has fuel for each file and one call more; SortFiles never
-- calls it, so no theorem rests on this fuel. The search for the free name of a oneof has fuel
-- for each name in use and one round more, since each round has tried another name. The search
-- for a base URL has fuel for each byte of the package and one round more, since each round goes
-- to a shorter package. The digits of a number have fuel for the number and one round more,
-- since each round divides it by ten. Numbers of enum values are integers, and a number that
-- buildProto gives out goes through int32.
--
-- Third-party code is a parameter: protoreflect.SourceLocations is a record of functions,
-- Name.IsValid, the name of a map entry and the full name of a message are arguments of the
-- operations that use them, and a combined resolver's parts are records. The conversion of
-- options takes anypb.MarshalFrom and the conversion to a float32 as arguments, that of defaults
-- the formats of strconv for floats and of fmt, and that of a field takes processOptions, which
-- sets options on messages of the runtime. sort.Ints and sort.Search are written out, as a sort
-- and as a search on sorted lists.
--
-- Letters are upper or lower case as in ASCII, where the code asks the package unicode.
--
-- Not modelled: file builders and the conversion of built descriptors, the registries, gRPC
-- reflection, the cache and the downloads of the remote registry, the text output of the
-- printer, and generated code.
pub mod Common
pub mod Escape
pub mod Files
pub mod Tags
pub mod Descriptor
pub mod SourceLoc
pub mod Printer
pub mod Resolve
pub mod Builder
pub mod Remote
