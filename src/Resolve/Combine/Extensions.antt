-- ===== src/Resolve/Combine/Extensions.antt =====
-- RangeExtensionsByMessage of protoresolve/combine.go, and the range methods of combinedPool, whose
-- loop is the same.
use protoreflect.Common.{
  ℕ, ◌≡◌, ◌≢◌, refl, Bool, true, false, List, [], ◌∷◌, ◌++◌, Bytes, if◌then◌else◌, All, Bool-cases,
  inl, inr, arith,
}
use protoreflect.Resolve.Combine.{
  Callback, range, keep_going, range_seen_loop, Resolver, range_extensions_by_message,
}
use protoreflect.Resolve.Combine.Files.{all_files}
use protoreflect.Resolve.Pool.{TypePool, range_messages, range_enums, range_extensions}

module _ {A S : Type 0} (f : Callback A S) where
  -- The callback wanted to go on, every time.
  unfoldable pub went_on : List A → S → Bool
  went_on [] s = true
  went_on (x ∷ xs) s = let (s', more) = f x s in if more then went_on xs s' else false

  range_kept :
      (xs : List A) (s : S)
      → range xs (keep_going (λ _. false) f) (true, s) ≡ (went_on xs s, range xs f s)
  unfolding range keep_going went_on
  range_kept [] s = refl
  range_kept (x ∷ xs) s = elim (Bool-cases (f x s).1) [
    | inl more ↦ rw more (range_kept xs (f x s).0)
    | inr stop ↦ rw stop refl
  ]

  range-keep_going :
      (xs : List A) (s : S)
      → xs ≢ []
      → range xs (keep_going (λ _. false) f) (false, s) ≡ (went_on xs s, range xs f s)
  unfolding range keep_going went_on
  range-keep_going [] s h = absurd (h refl)
  range-keep_going (x ∷ xs) s h = elim (Bool-cases (f x s).1) [
    | inl more ↦ rw more (range_kept xs (f x s).0)
    | inr stop ↦ rw stop refl
  ]

  range_append :
      (xs ys : List A) (s : S)
      → range (xs ++ ys) f s ≡ (if went_on xs s then range ys f (range xs f s) else range xs f s)
  unfolding range went_on
  range_append [] ys s = refl
  range_append (x ∷ xs) ys s = ground (arith, range_append xs ys (f x s).0)

  range_seen_loop-all_files :
      {R : Type 0} (items : R → List A) (c : List R) (s : S)
      → All (λ (r : R). items r ≢ []) c
      → range_seen_loop (λ _. false) items c f s ≡ range (all_files items c) f s
  unfolding range_seen_loop
  range_seen_loop-all_files items [] s h = unfold range in refl
  range_seen_loop-all_files items (res ∷ c) s (ne, h) =
      rw (range-keep_going (items res) s ne, range_append (items res) (all_files items c) s)
        (ground (arith, range_seen_loop-all_files items c (range (items res) f s) h))

  range_seen_loop-nil :
      {R : Type 0} (items : R → List A) (res : R) (c : List R) (s : S)
      → items res ≡ []
      → range_seen_loop (λ _. false) items (res ∷ c) f s ≡ s
  unfolding range_seen_loop range
  range_seen_loop-nil items res c s e = rw e refl

-- If every resolver has an extension of the message, RangeExtensionsByMessage goes through the
-- extensions of all of them, one resolver after the other, and ends when the callback says so; an
-- extension number that two resolvers have is not suppressed.
pub range_extensions_by_message-all_files :
    {File Desc Msg Ext S : Type 0} (number : Ext → ℕ) (c : List (Resolver File Desc Msg Ext))
    (message : Bytes) (fn : Callback Ext S) (s : S)
    → All (λ (r : Resolver File Desc Msg Ext). r.extensions_by_message message ≢ []) c
    → range_extensions_by_message number c message fn s
      ≡ range
          (all_files (λ (r : Resolver File Desc Msg Ext). r.extensions_by_message message) c)
          fn
          s
unfolding range_extensions_by_message
range_extensions_by_message-all_files number c message fn s h = range_seen_loop-all_files fn _ c s h

-- If the first resolver has no extension of the message, RangeExtensionsByMessage calls the
-- callback for no extension at all, whatever the other resolvers have.
pub range_extensions_by_message-first_nil :
    {File Desc Msg Ext S : Type 0} (number : Ext → ℕ) (res : Resolver File Desc Msg Ext)
    (c : List (Resolver File Desc Msg Ext)) (message : Bytes) (fn : Callback Ext S) (s : S)
    → res.extensions_by_message message ≡ []
    → range_extensions_by_message number (res ∷ c) message fn s ≡ s
unfolding range_extensions_by_message
range_extensions_by_message-first_nil number res c message fn s e =
    range_seen_loop-nil fn (λ r. r.extensions_by_message message) res c s e

-- If the first pool has no message, no enum and no extension, then RangeMessages, RangeEnums and
-- RangeExtensions of the combined pool call the callback for no type at all, whatever the other
-- pools have.
pub combined_pool-first_nil :
    {Msg Enum Ext S : Type 0} (name_m : Msg → Bytes) (name_e : Enum → Bytes) (name_x : Ext → Bytes)
    (res : TypePool Msg Enum Ext) (c : List (TypePool Msg Enum Ext)) (fm : Callback Msg S)
    (fe : Callback Enum S) (fx : Callback Ext S) (s : S)
    → res.messages ≡ []
    → res.enums ≡ []
    → res.extensions ≡ []
    → (range_messages name_m (res ∷ c) fm s ≡ s)
      × (range_enums name_e (res ∷ c) fe s ≡ s)
      × (range_extensions name_x (res ∷ c) fx s ≡ s)
unfolding range_messages range_enums range_extensions
combined_pool-first_nil name_m name_e name_x res c fm fe fx s em ee ex = (
  range_seen_loop-nil fm (λ r. r.messages) res c s em,
  range_seen_loop-nil fe (λ r. r.enums) res c s ee,
  range_seen_loop-nil fx (λ r. r.extensions) res c s ex,
)
