-- ===== src/SpanBuffer/Nesting.antt =====
-- src/span_buffer.cpp: the spans of a whole tree of calls.
use forge_ops_tracker_cpp.Prelude.{
  ℕ, zero, suc, ◌+◌, ◌-◌, ◌≤◌, ◌≡◌, refl, sym, ap, ◌∙◌, List, [], ◌∷◌, ◌++◌, append-nil,
  append_assoc, some, Bytes, bytes_eq_refl, length, take, arith, leb, length-take, length-append,
  Bool-cases, inl, inr,
}
use forge_ops_tracker_cpp.Json.{JsonOps}
use forge_ops_tracker_cpp.SpanBuffer.{
  Outside, Settings, Details, Span, Members, max_spans, current_parent, open_span, build,
  record_span, closing, close_span, record_leaf,
}

module _ {ℓ} {A : Type ℓ} where
  take_all : (n : ℕ) (xs : List A) → length xs ≤ n → take n xs ≡ xs
  take_all zero [] h = refl
  take_all zero (x ∷ xs) h = absurd (omega arith)
  take_all (suc n) [] h = refl
  take_all (suc n) (x ∷ xs) h = ap (◌∷◌ x) (take_all n xs (omega arith))

  take_full : (n : ℕ) (xs ys : List A) → n ≤ length xs → take n (xs ++ ys) ≡ take n xs
  take_full zero xs ys h = refl
  take_full (suc n) [] ys h = absurd (omega arith)
  take_full (suc n) (x ∷ xs) ys h = ap (◌∷◌ x) (take_full n xs ys (omega arith))

  take-take-append : (n : ℕ) (xs ys : List A) → take n (take n xs ++ ys) ≡ take n (xs ++ ys)
  take-take-append zero xs ys = refl
  take-take-append (suc n) [] ys = refl
  take-take-append (suc n) (x ∷ xs) ys = ap (◌∷◌ x) (take-take-append n xs ys)

module _ (out : Outside) (json : JsonOps) (cfg : Settings) where
  -- What a thread does between the start of its root span and the end: leaves, and spans with calls
  -- of their own inside. Each carries its generated id.
  pub data Calls : Type 0 where
    done : Calls
    leaf : Bytes → Details out json → Calls → Calls
    nested : Bytes → Details out json → Calls → Calls → Calls

  unfoldable pub perform : Calls → Members out json → Members out json
  perform done m = m
  perform (leaf id d next) m = perform next (record_leaf out json cfg id d m)
  perform (nested id d inside next) m =
      perform next (close_span out json cfg id d (perform inside (open_span out json id m)))

  -- The spans of the tree, each under its caller, in the order in which they end.
  unfoldable pub tree_spans : Bytes → Calls → List (Span out json)
  tree_spans parent done = []
  tree_spans parent (leaf id d next) =
      build out json cfg id (some parent) d ∷ tree_spans parent next
  tree_spans parent (nested id d inside next) =
      tree_spans id inside ++ build out json cfg id (some parent) d ∷ tree_spans parent next

  -- One place is left for the root.
  abbrev pub room : ℕ
  room = max_spans - 1

  abbrev pub with_spans : Members out json → List (Span out json) → Members out json
  with_spans m xs = record m { spans = take room (m.spans ++ xs) }

  record_span-with_spans :
      (id parent : Bytes) (d : Details out json) (m : Members out json)
      → length m.spans ≤ room
      → record_span out json cfg id parent d m
        ≡ with_spans m (build out json cfg id (some parent) d ∷ [])
  unfolding record_span
  record_span-with_spans id parent d m h = elim (Bool-cases (leb room (length m.spans))) [
    | inl full ↦ rw full (
        ap (λ xs. record m { spans = xs })
          (sym (take_full room m.spans (one ∷ []) (ground arith) ∙ take_all room m.spans h)))
    | inr free ↦ rw free (
        ap (λ xs. record m { spans = xs })
          (sym (take_all room (m.spans ++ one ∷ []) (longer (ground arith)))))
  ]
    where
      one : Span out json
      one = build out json cfg id (some parent) d

      longer : length m.spans + 1 ≤ room → length (m.spans ++ one ∷ []) ≤ room
      longer less = omega (arith, length-append m.spans (one ∷ []))

  with_spans-with_spans :
      (m : Members out json) (xs ys : List (Span out json))
      → with_spans (with_spans m xs) ys ≡ with_spans m (xs ++ ys)
  with_spans-with_spans m xs ys =
      ap (λ zs. record m { spans = zs })
        (take-take-append room (m.spans ++ xs) ys ∙ ap (take room) (append_assoc m.spans xs ys))

  with_spans-room :
      (m : Members out json) (xs : List (Span out json)) → length (with_spans m xs).spans ≤ room
  with_spans-room m xs = omega (arith, length-take room (m.spans ++ xs))

  with_spans-nil : (m : Members out json) → length m.spans ≤ room → m ≡ with_spans m []
  with_spans-nil m h =
      ap (λ xs. record m { spans = xs })
        (sym (ap (take room) (append-nil m.spans) ∙ take_all room m.spans h))

  -- The span that closes was the last one opened: its parent is what was open below it.
  close_span-open_span :
      (id : Bytes) (d : Details out json) (m : Members out json) (xs : List (Span out json))
      → close_span out json cfg id d (with_spans (open_span out json id m) xs)
        ≡ with_spans
            (with_spans m xs)
            (build out json cfg id (some (current_parent out json m)) d ∷ [])
  unfolding close_span closing open_span
  close_span-open_span id d m xs = rw (bytes_eq_refl id) (
      record_span-with_spans id (current_parent out json m) d (with_spans m xs)
        (with_spans-room m xs))

  -- Whatever a thread does between the start and the end of a trace, each recorded span stands under
  -- the span that was open around it, in the order in which the spans end; of all of them the first
  -- 499 are kept, and afterwards the same spans are open as before.
  pub perform-tree :
      (calls : Calls) (m : Members out json)
      → length m.spans ≤ room
      → perform calls m ≡ with_spans m (tree_spans (current_parent out json m) calls)
  unfolding perform tree_spans open_span record_leaf
  perform-tree done m h = with_spans-nil m h
  perform-tree (leaf id d next) m h =
      ap (perform next) (record_span-with_spans id (current_parent out json m) d m h)
      ∙ perform-tree next (with_spans m one) (with_spans-room m one)
      ∙ with_spans-with_spans m one (tree_spans (current_parent out json m) next)
    where
      one : List (Span out json)
      one = build out json cfg id (some (current_parent out json m)) d ∷ []
  perform-tree (nested id d inside next) m h =
      ap (λ u. perform next (close_span out json cfg id d u))
        (perform-tree inside (open_span out json id m) h)
      ∙ ap (perform next) (close_span-open_span id d m within)
      ∙ perform-tree next (with_spans (with_spans m within) one)
          (with_spans-room (with_spans m within) one)
      ∙ with_spans-with_spans (with_spans m within) one after
      ∙ with_spans-with_spans m within (one ++ after)
    where
      one : List (Span out json)
      one = build out json cfg id (some (current_parent out json m)) d ∷ []

      within : List (Span out json)
      within = tree_spans id inside

      after : List (Span out json)
      after = tree_spans (current_parent out json m) next
