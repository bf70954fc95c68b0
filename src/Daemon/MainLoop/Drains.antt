-- ===== src/Daemon/MainLoop/Drains.antt =====
-- With a silent firmware and silent clients the queue of main_loop drains by its time-outs.
use jk16legacy.Prelude.{ℕ, suc, ◌≤◌, ◌<◌, ◌≡◌, ◌⊎◌, List, [], ◌∷◌, if◌then◌else◌, length}
use jk16legacy.CommandQueue.{TimeVal, Cmd}
use jk16legacy.CommandQueue.Laws.{IsUntil, is_past}
use jk16legacy.Daemon.MainLoop.{timed_out, Round}
use jk16legacy.Daemon.MainLoop.TimeOuts.{late}

-- How often the clock passes two seconds, counted from `t`, from the time of the last count on.
abbrev pub passes : TimeVal → List Round → ℕ
passes t [] = 0
passes t (r ∷ rs) =
    let late = suc (passes r.now rs) in
    let early = passes t rs in if is_past t r.now then late else early

-- In every run select times out, and the clock does not go back.
abbrev pub IsQuiet : TimeVal → List Round → Type 0
IsQuiet t [] = Unit {0}
IsQuiet t (r ∷ rs) = (r.select ≡ timed_out) × IsUntil t r.now × IsQuiet r.now rs

-- The first command was sent at `t` at the latest.
abbrev pub IsSentBy : TimeVal → List Cmd → Type 0
IsSentBy t [] = Unit {0}
IsSentBy t (c ∷ q) = IsUntil c.tv_start t

-- In every case of the invariant: the length, and where the first command was sent.
abbrev Drainable : TimeVal → List Round → List Cmd → Type 0
Drainable t rs q = (IsSentBy t q × (length q ≤ passes t rs)) ⊎ (length q < passes t rs)
