-- ===== src/Services/Merge.antt =====
-- The findings of a job: each title once, and exactly the titles that the tools reported.
use mathlib.Core.List.{foldl, append-nil, append_assoc}
use audit_guard.Prelude.{
  String, ◌≡◌, refl, Bool, false, Option, none, some, List, [], ◌∷◌, ◌++◌, ◌&&◌, ◌||◌, arith, any,
  ◌===◌, eq_iff, Bool-cases, inl, inr, ◌or_else◌, if◌then◌else◌, if_both, is_some, sym, ◌∙◌,
}
use audit_guard.Services.Tools.{
  Finding, Tool, Collected, has_title, merge_finding, merge_findings, collect, run_tool, run_tools,
}

-- No two findings have the same title.
abbrev pub Distinct : {P : Type 0} → List (Finding P) → Type 0
Distinct [] = Unit
Distinct (f ∷ fs) = (any (has_title f.title) fs ≡ false) × Distinct fs

module _ {P : Type 0} where
  any-snoc :
      (t : String) (xs : List (Finding P)) (f : Finding P)
      → any (has_title t) (xs ++ f ∷ []) ≡ (any (has_title t) xs || f.title === t)
  any-snoc t [] f = ground arith
  any-snoc t (x ∷ xs) f = ground (arith, any-snoc t xs f)

  snoc-Distinct :
      (xs : List (Finding P)) (f : Finding P)
      → any (has_title f.title) xs ≡ false
      → Distinct xs
      → Distinct (xs ++ f ∷ [])
  snoc-Distinct [] f new h = (refl, tt)
  snoc-Distinct (x ∷ xs) f new h = (
    ground (arith, any-snoc x.title xs f, eq_iff f.title x.title, eq_iff x.title f.title),
    snoc-Distinct xs f (ground arith) h.1,
  )

  merge_finding-Distinct :
      (xs : List (Finding P)) (f : Finding P) → Distinct xs → Distinct (merge_finding xs f)
  unfolding merge_finding
  merge_finding-Distinct xs f h = elim (Bool-cases (any (has_title f.title) xs)) [
    | inl old ↦ rw old h
    | inr new ↦ rw new (snoc-Distinct xs f new h)
  ]

  merge_findings-Distinct :
      (xs fs : List (Finding P)) → Distinct xs → Distinct (merge_findings xs fs)
  unfolding merge_findings
  merge_findings-Distinct xs [] h = h
  merge_findings-Distinct xs (f ∷ fs) h =
      merge_findings-Distinct (merge_finding xs f) fs (merge_finding-Distinct xs f h)

  any-merge_finding :
      (t : String) (xs : List (Finding P)) (f : Finding P)
      → any (has_title t) (merge_finding xs f) ≡ (any (has_title t) xs || f.title === t)
  unfolding merge_finding
  any-merge_finding t xs f = elim (Bool-cases (any (has_title f.title) xs)) [
    | inl old ↦ rw old (ground (arith, eq_iff f.title t))
    | inr new ↦ rw new (any-snoc t xs f)
  ]

  any-merge_findings :
      (t : String) (xs fs : List (Finding P))
      → any (has_title t) (merge_findings xs fs) ≡ (any (has_title t) xs || any (has_title t) fs)
  unfolding merge_findings
  any-merge_findings t xs [] = ground arith
  any-merge_findings t xs (f ∷ fs) =
      ground (arith, any-merge_findings t (merge_finding xs f) fs, any-merge_finding t xs f)

-- The tool ran and reported this title.
abbrev pub reports : {J P : Type 0} → String → J → Tool J P → Bool
reports t job tool =
    tool.enabled && (tool.available or_else false) && any (has_title t) (tool.run job or_else [])

-- The names of the tools that ran, in order.
abbrev pub ran : {J P : Type 0} → J → List (Tool J P) → List String
ran job [] = []
ran job (tool ∷ tools) =
    let rest = ran job tools in
    if tool.enabled && (tool.available or_else false) && is_some (tool.run job)
    then tool.name ∷ rest
    else rest

module _ {J P : Type 0} (job : J) where
  abbrev continue : Collected P → List (Tool J P) → Collected P
  continue = foldl (run_tool job)

  any-run_tool :
      (t : String) (c : Collected P) (tool : Tool J P)
      → any (has_title t) (run_tool job c tool).findings
        ≡ (any (has_title t) c.findings || reports t job tool)
  unfolding run_tool
  any-run_tool t c tool = go (tool.run job)
    where
      go :
          (r : Option (List (Finding P)))
          → any
              (has_title t)
              (if tool.enabled && (tool.available or_else false)
                then collect tool.name r c
                else c).findings
            ≡ (any (has_title t) c.findings
                || tool.enabled
                  && (tool.available or_else false)
                  && any (has_title t) (r or_else []))
      go none = ground arith
      go (some fs) = ground (arith, any-merge_findings t c.findings fs)

  run_tool-Distinct :
      (c : Collected P) (tool : Tool J P)
      → Distinct c.findings
      → Distinct (run_tool job c tool).findings
  unfolding run_tool
  run_tool-Distinct c tool h =
      if_both (λ (d : Collected P). Distinct d.findings)
        (tool.enabled && (tool.available or_else false)) (go (tool.run job)) h
    where
      go : (r : Option (List (Finding P))) → Distinct (collect tool.name r c).findings
      go none = h
      go (some fs) = merge_findings-Distinct c.findings fs h

  continue-Distinct :
      (c : Collected P) (tools : List (Tool J P))
      → Distinct c.findings
      → Distinct (continue c tools).findings
  continue-Distinct c [] h = h
  continue-Distinct c (tool ∷ tools) h =
      continue-Distinct (run_tool job c tool) tools (run_tool-Distinct c tool h)

  any-continue :
      (t : String) (c : Collected P) (tools : List (Tool J P))
      → any (has_title t) (continue c tools).findings
        ≡ (any (has_title t) c.findings || any (reports t job) tools)
  any-continue t c [] = ground arith
  any-continue t c (tool ∷ tools) =
      ground (arith, any-continue t (run_tool job c tool) tools, any-run_tool t c tool)

  used-run_tool :
      (c : Collected P) (tool : Tool J P) (rest : List String)
      → (run_tool job c tool).tools_used ++ rest
        ≡ c.tools_used
          ++ (if tool.enabled && (tool.available or_else false) && is_some (tool.run job)
              then tool.name ∷ rest
              else rest)
  unfolding run_tool
  used-run_tool c tool rest = go (tool.run job)
    where
      go :
          (r : Option (List (Finding P)))
          → (if tool.enabled && (tool.available or_else false)
                then collect tool.name r c
                else c).tools_used
              ++ rest
            ≡ c.tools_used
              ++ (if tool.enabled && (tool.available or_else false) && is_some r
                  then tool.name ∷ rest
                  else rest)
      go none = ground arith
      go (some fs) = ground (arith, append_assoc c.tools_used (tool.name ∷ []) rest)

  used-continue :
      (c : Collected P) (tools : List (Tool J P))
      → (continue c tools).tools_used ≡ c.tools_used ++ ran job tools
  used-continue c [] = sym (append-nil _)
  used-continue c (tool ∷ tools) =
      used-continue (run_tool job c tool) tools ∙ used-run_tool c tool (ran job tools)

  -- Whatever the tools report, the findings of a job hold no title twice.
  pub run_tools-Distinct : (tools : List (Tool J P)) → Distinct (run_tools job tools).findings
  unfolding run_tools
  run_tools-Distinct tools = continue-Distinct (record { findings = []; tools_used = [] }) tools tt

  -- The findings of a job have exactly the titles that some tool reported which was enabled and
  -- installed and did not throw.
  pub any-run_tools :
      (t : String) (tools : List (Tool J P))
      → any (has_title t) (run_tools job tools).findings ≡ any (reports t job) tools
  unfolding run_tools
  any-run_tools t tools = any-continue t (record { findings = []; tools_used = [] }) tools

  -- The tools that a job names as used are, in order, those that were enabled and installed and did
  -- not throw.
  pub tools_used-run_tools :
      (tools : List (Tool J P)) → (run_tools job tools).tools_used ≡ ran job tools
  unfolding run_tools
  tools_used-run_tools tools = used-continue (record { findings = []; tools_used = [] }) tools
