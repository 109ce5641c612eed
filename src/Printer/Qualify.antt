-- ===== src/Printer/Qualify.antt =====
-- protoprint/print.go: the name by which an element is referred to from a scope. `none` is a panic, or the
-- end of the fuel.
pub mod Scopes
pub mod Result
pub mod Examples
use protoreflect.Common.{
  ℕ, zero, suc, ◌-◌, Bool, true, false, not, ◌&&◌, Option, none, some, List, [], ◌∷◌, ◌++◌, Bytes,
  ◌==◌, if◌then◌else◌, bytes_eq, has_prefix, length, take, drop,
}
use protoreflect.Common.Int.{ℤ, pos, negsuc, ltz}

-- The byte '.'
abbrev pub dot : ℕ
dot = 46

-- s[:pos+1], with pos = strings.LastIndex(s, ".")
unfoldable pub to_last_dot : Bytes → Bytes
to_last_dot [] = []
to_last_dot (c ∷ s) =
    let rest = to_last_dot s in
    elim rest [ [] ↦ if c == dot then c ∷ [] else [] | d ∷ ds ↦ c ∷ d ∷ ds ]

-- The end of the loop's body: the scope without its last name
unfoldable pub outer_scope : Bytes → Bytes
unfolding to_last_dot
outer_scope scope = to_last_dot (take (length scope - 1) scope)

unfoldable pub ends_with_dot : Bytes → Bool
ends_with_dot [] = false
ends_with_dot (c ∷ []) = c == dot
ends_with_dot (c ∷ d ∷ s) = ends_with_dot (d ∷ s)

-- The scope that the loop starts with
unfoldable pub start_scope : Bytes → Bytes → ℤ → Bytes
unfolding ends_with_dot
start_scope pkg scope (negsuc _) = pkg ++ dot ∷ []
start_scope pkg [] (pos _) = []
start_scope pkg (c ∷ scope) (pos _) =
    if ends_with_dot (c ∷ scope) then c ∷ scope else (c ∷ scope) ++ dot ∷ []

-- The loop of qualifyElementName, on fuel
unfoldable pub qualify_loop : ℕ → Bytes → Bytes → ℤ → ℕ → Bytes → Option Bytes
unfolding outer_scope has_prefix bytes_eq
qualify_loop zero pkg fqn required count scope = none
qualify_loop (suc fuel) pkg fqn required count [] = some fqn
qualify_loop (suc fuel) pkg fqn required count (c ∷ scope) =
    let rest = qualify_loop fuel pkg fqn required (suc count) (outer_scope (c ∷ scope)) in
    if has_prefix fqn (c ∷ scope) && not (ltz (pos count) required)
    then some (drop (length (c ∷ scope)) fqn)
    else if bytes_eq (c ∷ scope) (pkg ++ dot ∷ [])
    then some fqn
    else rest

-- fqn[1:], if fqn[0] is a dot
unfoldable pub without_dot : Bytes → Bytes
without_dot [] = []
without_dot (c ∷ fqn) = if c == dot then fqn else c ∷ fqn

-- qualifyElementName, with fuel for each byte of the scope and one round more
unfoldable pub qualify_element_name : Bool → Bytes → Bytes → Bytes → ℤ → Option Bytes
unfolding qualify_loop without_dot start_scope
qualify_element_name forced pkg scope [] required = none
qualify_element_name true pkg scope (c ∷ fqn) required = some (dot ∷ without_dot (c ∷ fqn))
qualify_element_name false pkg scope (c ∷ fqn) required =
    qualify_loop (suc (length (start_scope pkg scope required))) pkg (without_dot (c ∷ fqn))
      required 0 (start_scope pkg scope required)

-- qualifyMessageOptionName, qualifyExtensionLiteralName and qualifyName
unfoldable pub qualify_message_option_name : Bool → Bytes → Bytes → Bytes → Option Bytes
qualify_message_option_name forced pkg scope fqn = qualify_element_name forced pkg scope fqn (pos 1)

unfoldable pub qualify_extension_literal_name : Bool → Bytes → Bytes → Bytes → Option Bytes
qualify_extension_literal_name forced pkg scope fqn =
    qualify_element_name forced pkg scope fqn (negsuc 0)

unfoldable pub qualify_name : Bool → Bytes → Bytes → Bytes → Option Bytes
qualify_name forced pkg scope fqn = qualify_element_name forced pkg scope fqn (pos 0)
