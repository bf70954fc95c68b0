-- ===== src/CommandQueue.antt =====
-- powersensordaemon/command_queue.c and .h: the queue of commands for the firmware. The list
-- holds the cmd_t that hang on `first`. Every caller passes the address of a variable, so the
-- tests for a null `first` have no case here.
pub mod Laws
use jk16legacy.Prelude.{
  ℕ, ◌+◌, Bool, true, false, Option, none, some, List, [], ◌∷◌, ltb, ◌==◌, if◌then◌else◌, ℤ, pos,
  negsuc, Text,
}
use jk16legacy.World.{World, alloc}

-- enum cmd_id_enum
pub data CmdId : Type 0 where
  power_on power_off sample log listen : CmdId

-- struct timeval
pub record TimeVal : Type 0 where
  pub tv_sec : ℕ
  pub tv_usec : ℕ

-- struct cmd_struct
pub record Cmd : Type 0 where
  pub fd : ℕ
  pub cmd : CmdId
  pub param : Option Text
  pub sent : Bool
  pub tv_start : TimeVal

unfoldable cmd_get_last : List Cmd → Option Cmd
cmd_get_last [] = none
cmd_get_last (c ∷ []) = some c
cmd_get_last (c ∷ d ∷ q) = cmd_get_last (d ∷ q)

abbrev pub new_cmd : ℕ → CmdId → Option Text → Cmd
new_cmd fd cmd param = record {
  fd = fd;
  cmd = cmd;
  param = param;
  sent = false;
  tv_start = record { tv_sec = 0; tv_usec = 0 };
}

-- The end of cmd_push: hang the new node behind the last one.
pub cmd_link : List Cmd → Cmd → List Cmd
cmd_link [] c = c ∷ []
cmd_link (d ∷ q) c = d ∷ cmd_link q c

-- strdup of the parameter, where there is one
dup_param : Option Text → World → Bool × World
unfolding alloc
dup_param none w = (true, w)
dup_param (some p) w = alloc w

-- The result is the returned value, the queue and the world. Both allocations may fail.
pub cmd_push : List Cmd → ℕ → CmdId → Option Text → World → ℤ × List Cmd × World
unfolding alloc dup_param cmd_link
cmd_push first fd cmd param w =
    let (got, w1) = alloc w in
    let (copied, w2) = dup_param param w1 in
    if got
    then (if copied
        then (pos 0, cmd_link first (new_cmd fd cmd param), w2)
        else (negsuc 1, first, w2))
    else (negsuc 1, first, w1)

-- `now` is what gettimeofday reads.
unfoldable pub cmd_sent : TimeVal → Cmd → Cmd
cmd_sent now c = record c { sent = true; tv_start = now }

-- timercmp(a, b, <)
unfoldable pub timer_lt : TimeVal → TimeVal → Bool
timer_lt a b = if a.tv_sec == b.tv_sec then ltb a.tv_usec b.tv_usec else ltb a.tv_sec b.tv_sec

unfoldable pub cmd_has_expired : TimeVal → Cmd → Bool
unfolding timer_lt
cmd_has_expired now c =
    timer_lt (record { tv_sec = c.tv_start.tv_sec + 2; tv_usec = c.tv_start.tv_usec }) now

unfoldable pub cmd_pop : List Cmd → List Cmd
cmd_pop [] = []
cmd_pop (c ∷ q) = q

unfoldable pub cmd_clear : List Cmd → List Cmd
cmd_clear [] = []
cmd_clear (c ∷ q) = cmd_clear q
