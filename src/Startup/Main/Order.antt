-- ===== src/Startup/Main/Order.antt =====
-- Every part of main adds to the calls that were made before it.
use jk16legacy.Prelude.{ℕ, ◌≡◌, inl, inr, Option, none, some, List, ◌++◌, ltb, Bool-cases, Text}
use jk16legacy.KeyValue.{key_value_storage_length}
use jk16legacy.Daemon.MainLoop.{Autosample}
use jk16legacy.Options.{Options}
use jk16legacy.Startup.{OsCall, os_pid_file, Boot}
use jk16legacy.Startup.Socket.{init_command_socket, init_command_socket_cases}
use jk16legacy.Startup.Fork.{
  Forked, not_forked, forked, child_runs, OnForked, start_autosample_process_keeps,
}
use jk16legacy.Startup.Daemonize.{
  Background, daemon_exit, in_background, OnBackground, daemonize_keeps,
}
use jk16legacy.Startup.Serial.{Serving, TtyEnd, tty_left, tty_serves, tty_stuck, tty_waits}
use jk16legacy.Startup.Grown.{
  Grown, OnTty, Grown-did, Grown-tty_loop, Grown-shut_down, Grown-init_command_socket,
}
use jk16legacy.Startup.Main.{
  MainEnv, MainEnd, exited, serves_on, waits_on, main_stuck, helper_runs, null_read, end_of,
  serving, listen_with, serve_part, helper_part, autosample_start, store_pid, daemon_part,
  background_part,
}

-- The calls at an end of main.
abbrev pub calls_of : MainEnd → List OsCall
calls_of (exited r b) = b.os_calls
calls_of (serves_on l b) = b.os_calls
calls_of (waits_on b) = b.os_calls
calls_of (main_stuck b) = b.os_calls
calls_of (helper_runs w r b) = b.os_calls
calls_of (null_read b) = b.os_calls

-- The calls of an end begin with `cs`.
abbrev pub Begun : List OsCall → MainEnd → Type 0
Begun cs e = (more : List OsCall) × (calls_of e ≡ cs ++ more)

module _ (cs : List OsCall) where
  end_of-Begun : (v : Serving) (t : TtyEnd) → OnTty (Grown cs) t → Begun cs (end_of v t)
  unfolding end_of
  end_of-Begun v (tty_left ret fd b) h = Grown-shut_down cs v ret fd b h
  end_of-Begun v (tty_serves l b) h = h
  end_of-Begun v (tty_stuck b) h = h
  end_of-Begun v (tty_waits b) h = h

  serve_part-Begun :
      (env : MainEnv) (o : Options) (k : Option (ℕ × Autosample)) (path : Option Text) (b : Boot)
      → Grown cs b
      → Begun cs (serve_part env o k path b)
  unfolding serve_part listen_with
  serve_part-Begun env o k none b h = h
  serve_part-Begun env o k (some path) b h =
      listened (init_command_socket env.command_socket path b) (
        Grown-init_command_socket cs env.command_socket path b _
          (init_command_socket_cases env.command_socket path b) h)
    where
      listened : (r : Option ℕ × Boot) → Grown cs r.1 → Begun cs (listen_with env o k r)
      listened (none, b') g = g
      listened (some fd, b') g =
          end_of-Begun (serving o k fd) _ (Grown-tty_loop cs (serving o k fd) env.openings b' g)

  helper_part-Begun :
      (env : MainEnv) (o : Options) (f : Forked)
      → OnForked (Grown cs) f
      → Begun cs (helper_part env o f)
  unfolding helper_part
  helper_part-Begun env o (not_forked b) h = h
  helper_part-Begun env o (forked pid a b) h =
      serve_part-Begun env o (some (pid, a)) o.command_sock_ b h
  helper_part-Begun env o (child_runs w r b) h = h

  autosample_start-Begun :
      (env : MainEnv) (o : Options) (b : Boot) → Grown cs b → Begun cs (autosample_start env o b)
  unfolding autosample_start
  autosample_start-Begun env o b h =
      elim (Bool-cases (ltb 0 (key_value_storage_length o.autosampledevs_))) [
        | inl e ↦ rw e (
            helper_part-Begun env o _ (
              start_autosample_process_keeps (Grown cs) (Grown-did cs) (λ p f args b k. k) env.pipes
                _ h))
        | inr e ↦ rw e (serve_part-Begun env o none o.command_sock_ b h)
      ]

  Grown-store_pid :
      (env : MainEnv) (file : Option Text) (b : Boot) → Grown cs b → Grown cs (store_pid env file b)
  unfolding store_pid
  Grown-store_pid env none b h = h
  Grown-store_pid env (some file) b h = elim (Bool-cases env.system.pid_file_ok) [
    | inl e ↦ simp e (Grown-did cs (os_pid_file file env.pid) b h)
    | inr e ↦ simp e h
  ]

  daemon_part-Begun :
      (env : MainEnv) (o : Options) (d : Background)
      → OnBackground (Grown cs) d
      → Begun cs (daemon_part env o d)
  unfolding daemon_part
  daemon_part-Begun env o (daemon_exit ret b) h = h
  daemon_part-Begun env o (in_background b) h =
      autosample_start-Begun env o _ (Grown-store_pid env o.pid_file_ _ h)

  pub background_part-Begun :
      (env : MainEnv) (o : Options) (b : Boot) → Grown cs b → Begun cs (background_part env o b)
  unfolding background_part
  background_part-Begun env o b h = elim (Bool-cases o.daemonize_) [
    | inl e ↦ simp e (
        daemon_part-Begun env o _
          (daemonize_keeps (Grown cs) (Grown-did cs) (λ p f args b k. k) env.daemon b h))
    | inr e ↦ simp e (autosample_start-Begun env o _ (Grown-store_pid env o.pid_file_ b h))
  ]
