-- ===== src/MetricBuffer/System/Invariant.antt =====
-- What every event of the metric buffer keeps while one flush runs at a time.
use forge_ops_tracker_cpp.Prelude.{
  ℕ, suc, ◌+◌, ◌≤◌, ◌<◌, ◌≡◌, refl, sym, ap, subst, ◌∙◌, List, [], ◌∷◌, ◌++◌, map, append-nil,
  append_assoc, Option, none, some, Bytes, arith, length, length-append, drop, drop_all,
  drop-append_of_le, length-map, All, All-append, All-mono, After, run, run_induction, length-drop,
}
use forge_ops_tracker_cpp.Client.{
  DeliveryOutcome, delivered, rejected, failed, delivery_outcome_for_status,
}
use forge_ops_tracker_cpp.MetricBuffer.{
  Entry, Fate, kept, sent, dropped, max_entries, max_consecutive_failures, record_entry,
  ensure_worker_started, begin_flush, snapshot, fate_of, erase_front, settle, finish_flush, discard,
}
use forge_ops_tracker_cpp.MetricBuffer.System.{
  System, Event, records, begins, answers, discards, init, step, recorded, begun, finished,
  answered, begin_alone, discard_alone,
}

abbrev pub AtMost : ℕ → ℕ → Type 0
AtMost k n = n ≤ k

abbrev pub IsZero : ℕ → Type 0
IsZero n = n ≡ 0

map-suc-AtMost : (k : ℕ) (ps : List ℕ) → All (AtMost k) ps → All (AtMost (k + 1)) (map suc ps)
map-suc-AtMost k [] h = tt
map-suc-AtMost k (p ∷ ps) h = (omega arith, map-suc-AtMost k ps h.1)

zero_AtMost : (n : ℕ) → IsZero n → AtMost 0 n
zero_AtMost n h = omega arith

kept_below :
    (o : DeliveryOutcome) (failures : ℕ)
    → fate_of o failures ≡ kept
    → failures + 1 < max_consecutive_failures
unfolding fate_of
kept_below delivered failures h = cc
kept_below rejected failures h = cc
kept_below failed failures h = ground arith

module _ {A : Type 0} where
  -- While a batch is on the wire it is still the front of the buffer, and what came later has
  -- never been sent.
  abbrev pub Flying : Option (List (Entry A)) → List (Entry A) → ℕ → List ℕ → Type 0
  Flying none es k ps = All (AtMost k) ps
  Flying (some batch) es k ps =
      (es ≡ batch ++ drop (length batch) es)
      × All (AtMost (k + 1)) ps
      × All IsZero (drop (length batch) ps)

  pub record Inv (s : System A) : Type 0 where
    pub exact : s.accepted ≡ s.gone ++ s.members.entries
    pub bounded : length s.members.entries ≤ max_entries
    pub patient : s.members.consecutive_failures < max_consecutive_failures
    pub paired : length s.posts ≡ length s.members.entries
    pub flying : Flying s.flight s.members.entries s.members.consecutive_failures s.posts

  le_front : (b es : List (Entry A)) → es ≡ b ++ drop (length b) es → length b ≤ length es
  le_front b es h = omega (arith, ap length h, length-append b (drop (length b) es))

  Flying-concat :
      (f : Option (List (Entry A))) (es : List (Entry A)) (k : ℕ) (ps : List ℕ) (e : Entry A)
      → length ps ≡ length es
      → Flying f es k ps
      → Flying f (es ++ e ∷ []) k (ps ++ 0 ∷ [])
  Flying-concat none es k ps e h v = All-append (AtMost k) ps (0 ∷ []) v (omega arith)
  Flying-concat (some b) es k ps e h (front, few, fresh) = (
    front_grows,
    All-append (AtMost (k + 1)) ps (0 ∷ []) few (omega arith),
    rw (drop-append_of_le (length b) ps (0 ∷ []) (omega (arith, le_front b es front)))
        (All-append IsZero (drop (length b) ps) (0 ∷ []) fresh (omega arith)),
  )
    where
      front_grows : es ++ e ∷ [] ≡ b ++ drop (length b) (es ++ e ∷ [])
      front_grows = rw (drop-append_of_le (length b) es (e ∷ []) (le_front b es front)) (
          ap (λ (l : List (Entry A)). l ++ e ∷ []) front
          ∙ append_assoc b (drop (length b) es) (e ∷ []))

  Flying-begin :
      (es : List (Entry A)) (k : ℕ) (ps : List ℕ)
      → length ps ≡ length es
      → Flying none es k ps
      → Flying (some es) es k (map suc ps)
  Flying-begin es k ps h v = (
    rw (drop_all (length es) es (omega arith)) (sym (append-nil es)),
    map-suc-AtMost k ps v,
    rw (drop_all (length es) (map suc ps) (omega (arith, length-map ps suc))) tt,
  )

  recorded-Inv :
      (now : Bytes) (e : Entry A) (s : System A) → Inv s → After Inv (step (records now e) s)
  unfolding step recorded record_entry ensure_worker_started
  recorded-Inv now e s v = ground (
    arith,
    append_assoc s.gone s.members.entries (record e { recorded_at = now } ∷ []),
    length-append s.members.entries (record e { recorded_at = now } ∷ []),
    length-append s.posts (0 ∷ []),
    Flying-concat s.flight s.members.entries s.members.consecutive_failures s.posts
        (record e { recorded_at = now }) v.paired v.flying,
  )

  begun-Inv :
      (q : List (Entry A)) (s : System A)
      → s.flight ≡ none
      → s.members.entries ≡ q
      → Inv s
      → Inv (begun (snapshot q) s)
  unfolding begun snapshot
  begun-Inv [] s e h v = v
  begun-Inv (x ∷ xs) s e h v = ground (
    arith,
    length-map s.posts suc,
    Flying-begin s.members.entries s.members.consecutive_failures s.posts,
  )

  Flying-some :
      (b : List (Entry A)) (s : System A)
      → s.flight ≡ some b
      → Flying s.flight s.members.entries s.members.consecutive_failures s.posts
      → Flying (some b) s.members.entries s.members.consecutive_failures s.posts
  Flying-some b s e v =
      subst (λ f. Flying f s.members.entries s.members.consecutive_failures s.posts) e v

  closed-Inv :
      (b : List (Entry A)) (s : System A)
      → s.flight ≡ some b
      → Inv s
      → Inv (record s {
        members = record s.members {
          entries = drop (length b) s.members.entries;
          consecutive_failures = 0;
        };
        flight = none;
        gone = s.gone ++ b;
        posts = drop (length b) s.posts;
      })
  closed-Inv b s e v =
      let (front, few, fresh) = Flying-some b s e v.flying in
      record {
        exact =
            v.exact
            ∙ ap (λ (l : List (Entry A)). s.gone ++ l) front
            ∙ sym (append_assoc s.gone b _);
        bounded = omega (arith, v.bounded, length-drop (length b) s.members.entries);
        patient = omega arith;
        paired = omega (
          arith,
          v.paired,
          length-drop (length b) s.members.entries,
          length-drop (length b) s.posts,
        );
        flying = All-mono IsZero (AtMost 0) zero_AtMost (drop (length b) s.posts) fresh;
      }

  -- `kept` is the fate of a failure below the bound only.
  settled-Inv :
      (fate : Fate) (b : List (Entry A)) (s : System A)
      → s.flight ≡ some b
      → (fate ≡ kept → s.members.consecutive_failures + 1 < max_consecutive_failures)
      → Inv s
      → After Inv (finished fate b (settle fate (length b) s.members) s)
  unfolding finished settle erase_front
  settled-Inv kept b s e few v =
      let (front, most, fresh) = Flying-some b s e v.flying in
      record {
        exact = v.exact;
        bounded = v.bounded;
        patient = few refl;
        paired = v.paired;
        flying = most;
      }
  settled-Inv sent b s e few v = ground (arith, closed-Inv b s e v)
  settled-Inv dropped b s e few v = ground (arith, closed-Inv b s e v)

  answered-Inv :
      (f : Option (List (Entry A))) (status : ℕ) (s : System A)
      → s.flight ≡ f
      → Inv s
      → After Inv (answered f status s)
  unfolding answered finish_flush
  answered-Inv none status s e v = tt
  answered-Inv (some b) status s e v =
      settled-Inv (fate_of (delivery_outcome_for_status status) s.members.consecutive_failures) b s
        e (kept_below (delivery_outcome_for_status status) s.members.consecutive_failures) v

  begin_alone-Inv :
      (f : Option (List (Entry A))) (s : System A)
      → s.flight ≡ f
      → Inv s
      → After Inv (begin_alone f s)
  unfolding begin_alone begin_flush
  begin_alone-Inv none s e v = begun-Inv s.members.entries s e refl v
  begin_alone-Inv (some b) s e v = tt

  discard_alone-Inv :
      (f : Option (List (Entry A))) (s : System A)
      → s.flight ≡ f
      → Inv s
      → After Inv (discard_alone f s)
  unfolding discard_alone discard
  discard_alone-Inv none s e v = ground (arith, append-nil (s.gone ++ s.members.entries))
  discard_alone-Inv (some b) s e v = tt

  pub step-Inv : (e : Event A) (s : System A) → Inv s → After Inv (step e s)
  step-Inv (records now e) s v = recorded-Inv now e s v
  step-Inv begins s v = unfold step in begin_alone-Inv s.flight s refl v
  step-Inv (answers status) s v = unfold step in answered-Inv s.flight status s refl v
  step-Inv discards s v = unfold step in discard_alone-Inv s.flight s refl v

  Inv-init : Inv (init {A = A})
  Inv-init = record {
    exact = refl;
    bounded = omega arith;
    patient = omega arith;
    paired = refl;
    flying = tt;
  }

  pub run-Inv : (es : List (Event A)) {s : System A} → run step es init ≡ some s → Inv s
  run-Inv es h = run_induction step Inv step-Inv es init Inv-init h

  -- However the flushes went, no entry has been sent more often than the bound.
  pub posts_bounded :
      (f : Option (List (Entry A))) (s : System A)
      → s.flight ≡ f
      → Inv s
      → All (AtMost max_consecutive_failures) s.posts
  posts_bounded none s e v =
      All-mono (AtMost s.members.consecutive_failures) (AtMost max_consecutive_failures)
        (λ n h. omega (arith, v.patient, h)) s.posts
        (subst (λ f. Flying f s.members.entries s.members.consecutive_failures s.posts) e v.flying)
  posts_bounded (some b) s e v =
      All-mono (AtMost (s.members.consecutive_failures + 1)) (AtMost max_consecutive_failures)
        (λ n h. omega (arith, v.patient, h)) s.posts (Flying-some b s e v.flying).1
