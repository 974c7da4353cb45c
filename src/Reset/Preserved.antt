-- ===== src/Reset/Preserved.antt =====
-- What a reset can destroy.
use lean_fm.Common.{some, List, [], ◌≡◌, All}
use lean_fm.Reset.Plan.{Plan, Workspace, plan_of}
use lean_fm.Reset.Apply.{Action, Result, refused, planned, stopped, applied, Findings}
use lean_fm.Reset.Guarded.{AllCopied, IsGuarded}

-- Of a reset, by its result: one that is refused or only planned does nothing, and of one that is
-- applied or stops on the way every action is guarded.
abbrev pub IsSafe : Workspace → Findings → Result × List Action → Type 0
IsSafe w f (refused, actions) = actions ≡ []
IsSafe w f (planned p, actions) = actions ≡ []
IsSafe w f (stopped, actions) = (p : Plan) × (plan_of w ≡ some p) × All (IsGuarded f p) actions
IsSafe w f (applied p, actions) =
    (plan_of w ≡ some p) × AllCopied f p.accounts × All (IsGuarded f p) actions
