-- ===== src/Complexity/Rules.antt =====
-- What the three rules report of a file's functions: the name, the measure and the maximum that
-- the message is made of. `PerRule` is a function from a rule to its configured maximum.
use pawnlint.Base.{
  ℕ, zero, suc, ◌||◌, not, ℤ, pos, negsuc, Option, none, some, List, [], ◌∷◌, Text, ltb,
  if◌then◌else◌,
}
use pawnlint.Tree.{Info, Node}
use pawnlint.Complexity.{cyclomatic, npath_node, maximum_nesting_depth}

pub record Function : Type 0 where
  pub info : Info
  pub name : Option Text
  pub body : Option Node

pub record Report : Type 0 where
  pub name : Text
  pub measure : ℕ
  pub maximum : ℕ

-- A configured maximum counts if it is positive.
abbrev pub configured : ℕ → Option ℤ → ℕ
configured default none = default
configured default (some (pos zero)) = default
configured default (some (pos (suc n))) = suc n
configured default (some (negsuc n)) = default

unfoldable pub configured_cyclomatic_maximum : Option ℤ → ℕ
configured_cyclomatic_maximum = configured 10

unfoldable pub configured_npath_maximum : Option ℤ → ℕ
configured_npath_maximum = configured 200

unfoldable pub configured_maximum_nesting : Option ℤ → ℕ
configured_maximum_nesting = configured 4

abbrev pub report_named : Option Text → ℕ → ℕ → List Report → List Report
report_named none measure maximum rest = rest
report_named (some name) measure maximum rest =
    record { name = name; measure = measure; maximum = maximum } ∷ rest

-- One round of the three loops, from the measure of the body.
unfoldable pub report : Function → ℕ → ℕ → List Report → List Report
report f measure maximum rest =
    if f.info.inactive || f.info.has_error || not (ltb maximum measure)
    then rest
    else report_named f.name measure maximum rest

unfoldable pub npath_of : Option Node → ℕ
npath_of none = 1
npath_of (some n) = npath_node n

-- `CyclomaticComplexity.Run`
unfoldable pub run_cyclomatic : ℕ → List Function → List Report
unfolding report
run_cyclomatic maximum [] = []
run_cyclomatic maximum (f ∷ fs) = report f (cyclomatic f.body) maximum (run_cyclomatic maximum fs)

-- `NPathComplexity.Run`
unfoldable pub run_npath : ℕ → List Function → List Report
unfolding report npath_of
run_npath maximum [] = []
run_npath maximum (f ∷ fs) = report f (npath_of f.body) maximum (run_npath maximum fs)

-- `MaximumNesting.Run`; it needs a deepest node to report.
unfoldable pub run_nesting : ℕ → List Function → List Report
unfolding report
run_nesting maximum [] = []
run_nesting maximum (f ∷ fs) =
    let d = maximum_nesting_depth f.body in
    let rest = run_nesting maximum fs in
    elim d.deepest [ none ↦ rest | some id ↦ report f d.maximum maximum rest ]
