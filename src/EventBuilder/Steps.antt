-- ===== src/EventBuilder/Steps.antt =====
-- Steps that may throw and that each replace one key of a JSON object, and runs of them.
use forge_ops_tracker_cpp.Prelude.{
  ◌≡◌, ◌≢◌, refl, sym, subst, ◌∙◌, Bool, true, not, ◌&&◌, List, [], ◌∷◌, all, All, Option, some,
  Bytes, bytes_eq, arith, ◌>>=◌,
}
use forge_ops_tracker_cpp.Json.{JsonOps}
use forge_ops_tracker_cpp.StrictPrivacy.Events.Edits.{apart}

module _ (json : JsonOps) where
  -- A step, what it needs under its key, and what it leaves there.
  pub record Step : Type 1 where
    pub key : Bytes
    pub replace : json.Json → Option json.Json
    pub Needs : Option json.Json → Type 0
    pub Leaves : Option json.Json → Type 0

  -- An object that differs from another under one key only.
  pub record ChangedAt (key : Bytes) (was j : json.Json) : Type 0 where
    pub object : json.is_object j ≡ true
    pub others : (k : Bytes) → k ≢ key → json.find k j ≡ json.find k was

  abbrev pub Works : Step → Type 0
  Works s =
      (j : json.Json)
      → json.is_object j ≡ true
      → s.Needs (json.find s.key j)
      → (r : json.Json) × (s.replace j ≡ some r)
        × ChangedAt s.key j r
        × s.Leaves (json.find s.key r)

  abbrev pub run_steps : List Step → json.Json → Option json.Json
  run_steps [] j = some j
  run_steps (s ∷ steps) j = s.replace j >>= λ r. run_steps steps r

  -- No step replaces that key.
  abbrev pub leave : Bytes → List Step → Bool
  leave k = all (λ (s : Step). not (bytes_eq s.key k))

  abbrev pub distinct : List Step → Bool
  distinct [] = true
  distinct (s ∷ steps) = leave s.key steps && distinct steps

  abbrev pub Ready : List Step → json.Json → Type 0
  Ready steps j = All (λ (s : Step). s.Needs (json.find s.key j)) steps

  abbrev pub Done : List Step → json.Json → Type 0
  Done steps r = All (λ (s : Step). s.Leaves (json.find s.key r)) steps

  ChangedAt-Ready :
      (key : Bytes) (was j : json.Json) (steps : List Step)
      → ChangedAt key was j
      → leave key steps ≡ true
      → Ready steps was
      → Ready steps j
  ChangedAt-Ready key was j [] changed l h = tt
  ChangedAt-Ready key was j (s ∷ steps) changed l h = (
    subst s.Needs (sym (changed.others s.key (apart s.key key (ground arith)))) h.0,
    ChangedAt-Ready key was j steps changed (ground arith) h.1,
  )

  -- Steps on different keys, each with what it needs, run to their end, and leave what each promises.
  pub run_steps-Done :
      (steps : List Step) (j : json.Json)
      → All Works steps
      → distinct steps ≡ true
      → json.is_object j ≡ true
      → Ready steps j
      → (r : json.Json) × (run_steps steps j ≡ some r)
        × (json.is_object r ≡ true)
        × ((k : Bytes) → leave k steps ≡ true → json.find k r ≡ json.find k j)
        × Done steps r
  run_steps-Done [] j works d o h = (j, refl, o, λ k l. refl, tt)
  run_steps-Done (s ∷ steps) j works d o h =
      let (mid, e, changed, left) = works.0 j o h.0 in
      let (r, same, object, others, done) =
        run_steps-Done steps mid works.1 (ground arith) changed.object
          (ChangedAt-Ready s.key j mid steps changed (ground arith) h.1) in
      (
        r,
        rw e same,
        object,
        λ k l.
            others k (ground arith)
            ∙ changed.others k (λ k_eq. apart s.key k (ground arith) (sym k_eq)),
        (subst s.Leaves (sym (others s.key (ground arith))) left, done),
      )
