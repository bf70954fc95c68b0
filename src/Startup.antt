-- ===== src/Startup.antt =====
-- How the programs of the repository start: powersensordaemon.c's main and what it calls before
-- and around main_loop. This file has the calls of the system that they make.
pub mod Socket
pub mod Tty
pub mod Fork
pub mod Daemonize
pub mod Serial
pub mod Grown
pub mod Main
use jk16legacy.Prelude.{ℕ, List, [], ◌∷◌, ◌++◌, Text}
use jk16legacy.World.{Prio, LogArg, World, log_event}
use jk16legacy.Daemon.MainLoop.{fd_clr}
use jk16legacy.Privileges.{SysCall}
use Prim.Native.String.{String}

-- A call of the system that has succeeded, or that cannot fail.
pub data OsCall : Type 0 where
  os_socket os_close os_sleep os_kill os_listen : ℕ → OsCall
  os_unlink : Text → OsCall
  os_bind os_connect os_open os_write : ℕ → Text → OsCall
  os_pipe : ℕ → ℕ → OsCall
  os_dup : ℕ → ℕ → OsCall
  os_read : ℕ → OsCall
  os_umask : ℕ → OsCall
  os_setsid os_chdir_root : OsCall
  os_rights : SysCall → OsCall
  os_pid_file : Text → ℕ → OsCall
  -- fprintf(stderr, …)
  os_print : String → List LogArg → OsCall

-- The calls so far, oldest first, and the world.
pub record Boot : Type 0 where
  pub os_calls : List OsCall
  pub world : World

abbrev pub did : OsCall → Boot → Boot
did c b = record b { os_calls = b.os_calls ++ (c ∷ []) }

abbrev pub tell : Prio → String → List LogArg → Boot → Boot
tell p f args b = record b { world = log_event p f args b.world }

-- The descriptors that are open after some calls, of which `fds` were open before.
unfoldable pub still_open : List OsCall → List ℕ → List ℕ
still_open [] fds = fds
still_open (os_socket fd ∷ cs) fds = still_open cs (fd ∷ fds)
still_open (os_open fd path ∷ cs) fds = still_open cs (fd ∷ fds)
still_open (os_pipe r w ∷ cs) fds = still_open cs (r ∷ w ∷ fds)
still_open (os_close fd ∷ cs) fds = still_open cs (fd_clr fd fds)
still_open (_ ∷ cs) fds = still_open cs fds
