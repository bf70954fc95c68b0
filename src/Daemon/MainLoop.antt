-- ===== src/Daemon/MainLoop.antt =====
-- powersensordaemon.c: main_loop, as one function for a run of its body. What select, accept, read,
-- signal_handle and gettimeofday return in a run is the record `Round`.
pub mod Body
pub mod Clients
pub mod Invariant
pub mod Parts
pub mod Walk
pub mod Runs
pub mod Effects
pub mod Protocol
pub mod Refines
pub mod Simulation
pub mod Follows
pub mod TimeOuts
pub mod Drains
use jk16legacy.Prelude.{
  ℕ, Bool, false, ◌&&◌, ◌||◌, not, Option, none, some, List, [], ◌∷◌, ltb, ◌==◌, if◌then◌else◌, ℤ,
  pos, negsuc, is_zero, is_two, Text,
}
use jk16legacy.World.{Prio, error, warning, debug, LogArg, str, num, closed, log_event}
use jk16legacy.Datatypes.{ReadBuffer}
use jk16legacy.CommandQueue.{TimeVal}
use jk16legacy.ClientList.{Client, client_add, client_remove, client_find, client_update}
use jk16legacy.Daemon.Send.Command.{kept}
use jk16legacy.Daemon.Commands.{Devices, Shared, in_world}
use jk16legacy.Daemon.Lines.{ReadOutcome, LineResult, nonblock_readline}
use jk16legacy.Daemon.Tty.{TtyPoll, process_tty}
use Prim.Native.String.{String}

pub data SelectOutcome : Type 0 where
  ready timed_out select_interrupted select_failed : SelectOutcome

pub record Round : Type 0 where
  pub select : SelectOutcome
  pub is_ready : ℕ → Bool
  pub signalled : Bool
  pub polls : List TtyPoll
  -- the descriptor that accept returns, or `none` for -1
  pub accepted : Option ℕ
  pub reads : ℕ → List ReadOutcome
  pub now : TimeVal
  -- the text of errno
  pub strerror : Text

-- autosample_process_t with a running process
pub record Autosample : Type 0 where
  pub write_fd_ : ℕ
  pub read_fd_ : ℕ

-- What main_loop gets and does not change. `autosample` is `none` where pid_ is not positive.
pub record Setup : Type 0 where
  pub opt : Devices
  pub tty_fd : ℕ
  pub cmd_listen_fd : ℕ
  pub sig_fd : ℕ
  pub autosample : Option Autosample

-- The variables of main_loop.
pub record Loop : Type 0 where
  pub shared : Shared
  pub readfds : List ℕ
  pub max_fd : ℕ
  pub tty_buffer : ReadBuffer
  pub autosample_buffer : ReadBuffer
  pub autosample_enabled : Bool

-- How a part of the body ends: it falls through to the next part, it continues with the next run,
-- it leaves the loop with a return value, or it does not end.
pub data Flow : Type 0 where
  on next_run : Loop → Flow
  leave : ℤ → Loop → Flow
  hangs : Flow

infixl 5 ◌>>=◌
abbrev pub ◌>>=◌ : Flow → (Loop → Flow) → Flow
on l >>= f = f l
next_run l >>= f = next_run l
leave r l >>= f = leave r l
hangs >>= f = hangs

-- fd_set as a list.
unfoldable pub fd_isset : ℕ → List ℕ → Bool
fd_isset fd [] = false
fd_isset fd (d ∷ ds) = d == fd || fd_isset fd ds

unfoldable pub fd_clr : ℕ → List ℕ → List ℕ
fd_clr fd [] = []
fd_clr fd (d ∷ ds) = let rest = fd_clr fd ds in if d == fd then rest else d ∷ rest

abbrev pub with_shared : (Shared → Shared) → Loop → Loop
with_shared f l = record l { shared = f l.shared }

abbrev pub note : Prio → String → List LogArg → Loop → Loop
note p f args l = with_shared (in_world (log_event p f args)) l

-- A nonzero return value leaves the loop.
abbrev pub check : ℤ → Loop → Flow
check r l = if is_zero r then on l else leave r l

-- if(FD_ISSET(sig_fd, &tmpfds)) …
unfoldable pub signal_part : Setup → Round → (ℕ → Bool) → Loop → Flow
signal_part c r tmpfds l = if tmpfds c.sig_fd && r.signalled then leave (pos 1) l else on l

-- if(FD_ISSET(tty_fd, &tmpfds)) …
unfoldable pub tty_part : Setup → Round → (ℕ → Bool) → Loop → Flow
tty_part c r tmpfds l =
    let t = process_tty c.opt c.tty_fd r.polls l.tty_buffer l.shared in
    if tmpfds c.tty_fd
    then check t.ret (record l { tty_buffer = t.buffer; shared = t.shared })
    else on l

-- A new connection: FD_SET, max_fd, client_add.
unfoldable pub add_connection : ℕ → Loop → Loop
add_connection fd l =
    let s = in_world (log_event debug "new command connection (fd=%d)" (num fd ∷ [])) l.shared in
    let (_, clients, w) = client_add s.client_lst fd s.world in
    record l {
      readfds = fd ∷ l.readfds;
      max_fd = if ltb l.max_fd fd then fd else l.max_fd;
      shared = record s { client_lst = clients; world = w };
    }

unfoldable pub accept_connection : Text → Option ℕ → Loop → Flow
unfolding add_connection log_event
accept_connection err none l =
    leave (negsuc 0) (note error "accept returned with error: %s" (str err ∷ []) l)
accept_connection err (some fd) l = on (add_connection fd l)

-- if(FD_ISSET(cmd_listen_fd, &tmpfds)) …
unfoldable pub listen_part : Setup → Round → (ℕ → Bool) → Loop → Flow
unfolding accept_connection
listen_part c r tmpfds l =
    if tmpfds c.cmd_listen_fd then accept_connection r.strerror r.accepted l else on l

-- What is done with a line of the autosample process: a closed pipe is taken off the set.
pub autosample_line : ℕ → LineResult → Loop → Flow
unfolding log_event
autosample_line fd t l =
    let l' = record l { autosample_buffer = t.buffer; shared = t.shared } in
    if is_two t.ret
    then next_run (
        note warning "autosample not running, removing pipe to it" []
          (record l' { readfds = fd_clr fd l.readfds }))
    else check t.ret l'

unfoldable pub autosample_ready : Setup → Round → (ℕ → Bool) → Option Autosample → Loop → Flow
unfolding autosample_line
autosample_ready c r tmpfds none l = on l
autosample_ready c r tmpfds (some a) l =
    if tmpfds a.write_fd_
    then autosample_line a.write_fd_
        (nonblock_readline c.opt a.write_fd_ (r.reads a.write_fd_) l.autosample_buffer l.shared) l
    else on l

-- if(autosample->pid_ > 0 && FD_ISSET(autosample->write_fd_, &tmpfds)) …
unfoldable pub autosample_part : Setup → Round → (ℕ → Bool) → Loop → Flow
unfolding autosample_ready
autosample_part c r tmpfds l = autosample_ready c r tmpfds c.autosample l

abbrev pub set_buffer : ReadBuffer → Client → Client
set_buffer b k = record k { buffer = b }

-- What is done with a line of a client: the buffer is stored in the client, and a client that has
-- closed its connection is removed.
pub client_line : ℕ → LineResult → Loop → Loop
unfolding log_event
client_line fd t l =
    let kept = client_update (set_buffer t.buffer) t.shared.client_lst fd in
    let s = record t.shared { client_lst = kept } in
    let s' =
      in_world (log_event debug "removing closed command connection (fd=%d)" (num fd ∷ [])) s in
    let (clients, w) = client_remove s'.client_lst fd s'.world in
    if is_two t.ret
    then record l {
      shared = record s' { client_lst = clients; world = w };
      readfds = fd_clr fd l.readfds;
    }
    else record l { shared = s }

unfoldable pub read_client : Setup → Round → ℕ → Option Client → Loop → ℤ × Loop
unfolding client_line
read_client c r fd none l = (pos 0, l)
read_client c r fd (some k) l =
    let t = nonblock_readline c.opt fd (r.reads fd) k.buffer l.shared in
    (if is_two t.ret then pos 0 else t.ret, client_line fd t l)

-- while(lst) …: the walk over the clients that are in the list when it begins, by descriptor. The
-- value is the return value when the walk ends; one that is not zero ends it.
unfoldable pub clients_walk : Setup → Round → (ℕ → Bool) → List ℕ → Loop → ℤ × Loop
unfolding read_client
clients_walk c r tmpfds [] l = (pos 0, l)
clients_walk c r tmpfds (fd ∷ fds) l =
    let (ret, l') = read_client c r fd (client_find l.shared.client_lst fd) l in
    let rest = clients_walk c r tmpfds fds (if tmpfds fd then l' else l) in
    if tmpfds fd && not (is_zero ret) then (ret, l') else rest
