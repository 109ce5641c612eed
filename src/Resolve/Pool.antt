-- ===== src/Resolve/Pool.antt =====
-- combinedPool of protoresolve/combine.go: one pool of types made of many.
use protoreflect.Common.{ℕ, List, [], Bytes}
use protoreflect.Resolve.Combine.{
  Result, Callback, find_first, range_seen_loop, keep_going, observed_path, seen_number,
}

-- The TypePool interface, with each range method as the list that it goes through.
pub record TypePool (Msg Enum Ext : Type 0) : Type 0 where
  pub find_extension_by_name : Bytes → Result Ext
  pub find_extension_by_number : Bytes → ℕ → Result Ext
  pub find_message_by_name : Bytes → Result Msg
  pub find_message_by_url : Bytes → Result Msg
  pub find_enum_by_name : Bytes → Result Enum
  pub messages : List Msg
  pub enums : List Enum
  pub extensions : List Ext
  pub extensions_by_message : Bytes → List Ext

-- The methods of `combinedPool`; in the range methods the map `seen` stays empty.
module _ {Msg Enum Ext : Type 0} where
  unfoldable pub find_extension_by_name : List (TypePool Msg Enum Ext) → Bytes → Result Ext
  find_extension_by_name c name = find_first (λ res. res.find_extension_by_name name) c

  unfoldable pub find_extension_by_number : List (TypePool Msg Enum Ext) → Bytes → ℕ → Result Ext
  find_extension_by_number c message field =
      find_first (λ res. res.find_extension_by_number message field) c

  unfoldable pub find_message_by_name : List (TypePool Msg Enum Ext) → Bytes → Result Msg
  find_message_by_name c name = find_first (λ res. res.find_message_by_name name) c

  unfoldable pub find_message_by_url : List (TypePool Msg Enum Ext) → Bytes → Result Msg
  find_message_by_url c url = find_first (λ res. res.find_message_by_url url) c

  unfoldable pub find_enum_by_name : List (TypePool Msg Enum Ext) → Bytes → Result Enum
  find_enum_by_name c name = find_first (λ res. res.find_enum_by_name name) c

  unfoldable pub range_messages :
      {S : Type 0} → (Msg → Bytes) → List (TypePool Msg Enum Ext) → Callback Msg S → S → S
  unfolding range_seen_loop keep_going observed_path
  range_messages full_name c fn s =
      range_seen_loop (λ msg. observed_path (full_name msg) [])
        (λ (res : TypePool Msg Enum Ext). res.messages) c fn s

  unfoldable pub range_enums :
      {S : Type 0} → (Enum → Bytes) → List (TypePool Msg Enum Ext) → Callback Enum S → S → S
  unfolding range_seen_loop keep_going observed_path
  range_enums full_name c fn s =
      range_seen_loop (λ en. observed_path (full_name en) [])
        (λ (res : TypePool Msg Enum Ext). res.enums) c fn s

  unfoldable pub range_extensions :
      {S : Type 0} → (Ext → Bytes) → List (TypePool Msg Enum Ext) → Callback Ext S → S → S
  unfolding range_seen_loop keep_going observed_path
  range_extensions full_name c fn s =
      range_seen_loop (λ ext. observed_path (full_name ext) [])
        (λ (res : TypePool Msg Enum Ext). res.extensions) c fn s

  unfoldable pub range_extensions_by_message :
      {S : Type 0} → (Ext → ℕ) → List (TypePool Msg Enum Ext) → Bytes → Callback Ext S → S → S
  unfolding range_seen_loop keep_going seen_number
  range_extensions_by_message number c message fn s =
      range_seen_loop (λ ext. seen_number (number ext) [])
        (λ (res : TypePool Msg Enum Ext). res.extensions_by_message message) c fn s
