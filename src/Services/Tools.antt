-- ===== src/Services/Tools.antt =====
-- The loop over the tools of a job, which both queue.js files hold: the tools that are enabled and
-- installed run in turn, a tool that throws is passed over, and findings are merged by title.
use audit_guard.Prelude.{
  String, Bool, false, Option, none, some, List, [], ◌∷◌, ◌++◌, any, ◌===◌, ◌or_else◌, ◌&&◌,
  if◌then◌else◌,
}
use mathlib.Core.List.{foldl}
use Prim.Native.String

pub record Finding (P : Type 0) : Type 0 where
  pub title : String
  pub body : P

-- An entry of `TOOL_CHECKS`. `none` stands for an exception.
pub record Tool (J P : Type 0) : Type 0 where
  pub name : String
  pub enabled : Bool
  pub available : Option Bool
  pub run : J → Option (List (Finding P))

-- What the loop has collected: `allFindings` and `toolsUsed`.
pub record Collected (P : Type 0) : Type 0 where
  pub findings : List (Finding P)
  pub tools_used : List String

abbrev pub has_title : {P : Type 0} → String → Finding P → Bool
has_title t e = e.title === t

module _ {P : Type 0} where
  unfoldable pub merge_finding : List (Finding P) → Finding P → List (Finding P)
  merge_finding all f = if any (has_title f.title) all then all else all ++ f ∷ []

  unfoldable pub merge_findings : List (Finding P) → List (Finding P) → List (Finding P)
  unfolding merge_finding
  merge_findings = foldl merge_finding

  unfoldable pub collect : String → Option (List (Finding P)) → Collected P → Collected P
  collect name none c = c
  collect name (some results) c = record c {
    findings = merge_findings c.findings results;
    tools_used = c.tools_used ++ name ∷ [];
  }

module _ {J P : Type 0} where
  unfoldable pub run_tool : J → Collected P → Tool J P → Collected P
  unfolding collect
  run_tool job c tool =
      if tool.enabled && (tool.available or_else false)
      then collect tool.name (tool.run job) c
      else c

  unfoldable pub run_tools : J → List (Tool J P) → Collected P
  run_tools job tools = foldl (run_tool job) (record { findings = []; tools_used = [] }) tools

-- `names.join("+")`
unfoldable pub join_plus : List String → String
join_plus [] = ""
join_plus (n ∷ []) = n
join_plus (n ∷ m ∷ names) = String.◌++◌ n (String.◌++◌ "+" (join_plus (m ∷ names)))

unfoldable pub tool_used : List String → String
unfolding join_plus
tool_used [] = "none"
tool_used (n ∷ names) = join_plus (n ∷ names)
