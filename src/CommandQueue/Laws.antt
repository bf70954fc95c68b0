-- ===== src/CommandQueue/Laws.antt =====
-- The command queue is first in, first out, and has at most one command under way.
use jk16legacy.Prelude.{
  ℕ, ◌+◌, ◌*◌, ◌<◌, ◌≡◌, refl, ap, ◌↔◌, ◌⊎◌, Bool, true, false, Option, none, some, List, [], ◌∷◌,
  ◌++◌, arith, pos, negsuc, Text,
}
use jk16legacy.World.{World}
use jk16legacy.CommandQueue.{
  CmdId, TimeVal, Cmd, new_cmd, cmd_link, cmd_push, timer_lt, cmd_has_expired,
}

cmd_link-append : (q : List Cmd) (c : Cmd) → cmd_link q c ≡ q ++ (c ∷ [])
unfolding cmd_link
cmd_link-append [] c = refl
cmd_link-append (d ∷ q) c = ap (λ r. d ∷ r) (cmd_link-append q c)

-- cmd_push either returns 0 and has put one unsent command at the end of the queue, or returns -2
-- and has left the queue as it was.
pub cmd_push_cases :
    (q : List Cmd) (fd : ℕ) (cmd : CmdId) (param : Option Text) (w : World)
    → let (ret, q', w') = cmd_push q fd cmd param w in
      ((ret ≡ pos 0) × (q' ≡ q ++ (new_cmd fd cmd param ∷ []))) ⊎ ((ret ≡ negsuc 1) × (q' ≡ q))
unfolding cmd_push
cmd_push_cases q fd cmd param w = ground (arith, cmd_link-append q (new_cmd fd cmd param))

abbrev pub micros : TimeVal → ℕ
micros t = t.tv_sec * 1000000 + t.tv_usec

-- For normalised readings a command has expired exactly when more than two seconds have passed
-- since it was sent.
cmd_has_expired_iff :
    (now : TimeVal) (c : Cmd)
    → now.tv_usec < 1000000
    → c.tv_start.tv_usec < 1000000
    → (cmd_has_expired now c ≡ true) ↔ (micros c.tv_start + 2000000 < micros now)
unfolding cmd_has_expired
cmd_has_expired_iff now c hn hc = ground arith

-- Where the allocations succeed, cmd_push does.
pub cmd_push_smooth :
    (q : List Cmd) (fd : ℕ) (cmd : CmdId) (param : Option Text) (w : World)
    → w.allocs ≡ []
    → cmd_push q fd cmd param w ≡ (pos 0, q ++ (new_cmd fd cmd param ∷ []), w)
unfolding cmd_push
cmd_push_smooth q fd cmd none w e = ground (arith, cmd_link-append q (new_cmd fd cmd none))
cmd_push_smooth q fd cmd (some p) w e = ground (arith, cmd_link-append q (new_cmd fd cmd (some p)))

-- `a` is not after `b`.
abbrev pub IsUntil : TimeVal → TimeVal → Type 0
IsUntil a b = timer_lt b a ≡ false

-- The clock shows more than two seconds after `t`.
abbrev pub is_past : TimeVal → TimeVal → Bool
is_past t now = timer_lt (record { tv_sec = t.tv_sec + 2; tv_usec = t.tv_usec }) now

pub IsUntil-trans : (a b d : TimeVal) → IsUntil a b → IsUntil b d → IsUntil a d
unfolding timer_lt
IsUntil-trans a b d h k = ground arith

pub IsUntil-refl : (a : TimeVal) → IsUntil a a
unfolding timer_lt
IsUntil-refl a = ground arith

pub cmd_has_expired-past :
    (c : Cmd) (t now : TimeVal)
    → IsUntil c.tv_start t
    → is_past t now ≡ true
    → cmd_has_expired now c ≡ true
unfolding cmd_has_expired timer_lt
cmd_has_expired-past c t now h k = ground arith
