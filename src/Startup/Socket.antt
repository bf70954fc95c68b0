-- ===== src/Startup/Socket.antt =====
-- powersensordaemon.c: init_command_socket; and establish_socket_connection of
-- serial_console/usocket.c, which serial_console/sample_sensors.c repeats. The results of socket,
-- bind, listen and connect, and the size of sun_path, are parameters.
use jk16legacy.Prelude.{
  ℕ, ◌-◌, ◌<◌, ◌≡◌, refl, ◌∙◌, inl, inr, Bool, not, Option, none, some, List, [], ◌∷◌, ◌++◌,
  append_assoc, arith, leb, if◌then◌else◌, Bool-cases, length, append_three, Text,
}
use jk16legacy.World.{error, info, str, num, log_event}
use jk16legacy.Startup.{
  OsCall, os_socket, os_listen, os_unlink, os_bind, os_connect, os_print, Boot, did, tell,
  still_open,
}

-- The descriptor of socket is `none` for -1.
pub record SocketEnv : Type 0 where
  pub socket_fd : Option ℕ
  pub sun_path_size : ℕ
  pub bind_ok : Bool
  pub listen_ok : Bool
  pub connect_ok : Bool
  pub socket_error : Text

-- From bind on.
bind_socket : SocketEnv → Text → ℕ → Boot → Option ℕ × Boot
unfolding log_event
bind_socket env path fd b =
    let bound = did (os_bind fd path) b in
    let listening = did (os_listen fd) bound in
    if not env.bind_ok
    then (none, tell error "unable to bind to '%s': %s" (str path ∷ str env.socket_error ∷ []) b)
    else if not env.listen_ok
    then (none, tell error "unable to listen on command socket: %s" (str path ∷ []) bound)
    else (some fd, tell info "now listening on %s for incoming commands" (str path ∷ []) listening)

-- From the test of the length on: strcpy fills sun_path, and what had the name is unlinked.
name_socket : SocketEnv → Text → Option ℕ → Boot → Option ℕ × Boot
unfolding bind_socket log_event
name_socket env path none b =
    (none, tell error "unable to open socket: %s" (str env.socket_error ∷ []) b)
name_socket env path (some fd) b =
    let opened = did (os_socket fd) b in
    if leb env.sun_path_size (length path)
    then (
      none,
      tell error "socket path is to long (max %d)" (num (env.sun_path_size - 1) ∷ []) opened,
    )
    else bind_socket env path fd (did (os_unlink path) opened)

-- `none` is -1.
unfoldable pub init_command_socket : SocketEnv → Text → Boot → Option ℕ × Boot
unfolding name_socket
init_command_socket env path b = name_socket env path env.socket_fd b

connect_socket : SocketEnv → Text → Option ℕ → Boot → Option ℕ × Boot
connect_socket env path none b =
    (none, did (os_print "unable to open socket: %s\n" (str env.socket_error ∷ [])) b)
connect_socket env path (some fd) b =
    let opened = did (os_socket fd) b in
    if leb env.sun_path_size (length path)
    then (
      none,
      did (os_print "socket path is to long (max %lu)\n" (num (env.sun_path_size - 1) ∷ [])) opened,
    )
    else if not env.connect_ok
    then (
      none,
      did (os_print "unable to connect to '%s': %s\n" (str path ∷ str env.socket_error ∷ []))
          opened,
    )
    else (some fd, did (os_connect fd path) opened)

unfoldable pub establish_socket_connection : SocketEnv → Text → Boot → Option ℕ × Boot
unfolding connect_socket
establish_socket_connection env path b = connect_socket env path env.socket_fd b

-- How init_command_socket ends.
pub data SocketReady (env : SocketEnv) (path : Text) (b : Boot) : Option ℕ × Boot → Type 0 where
  -- it listens at the path, which fits into sun_path with its terminating zero
  is_listening :
      (fd : ℕ) (b' : Boot)
      → env.socket_fd ≡ some fd
      → length path < env.sun_path_size
      → b'.os_calls
        ≡ b.os_calls ++ (os_socket fd ∷ os_unlink path ∷ os_bind fd path ∷ os_listen fd ∷ [])
      → SocketReady env path b (some fd, b')
  -- there is no socket
  no_socket :
      (b' : Boot)
      → env.socket_fd ≡ none
      → b'.os_calls ≡ b.os_calls
      → SocketReady env path b (none, b')
  -- the socket has been opened, and stays open
  left_open :
      (fd : ℕ) (b' : Boot) (more : List OsCall)
      → env.socket_fd ≡ some fd
      → b'.os_calls ≡ b.os_calls ++ (os_socket fd ∷ more)
      → still_open more (fd ∷ []) ≡ fd ∷ []
      → SocketReady env path b (none, b')

-- init_command_socket either listens at its path, which then fits into sun_path, after it has
-- removed what had the name; or it returns -1. On its failures behind socket it leaves the socket
-- open.
pub init_command_socket_cases :
    (env : SocketEnv) (path : Text) (b : Boot)
    → SocketReady env path b (init_command_socket env path b)
unfolding init_command_socket name_socket bind_socket still_open
init_command_socket_cases env path b = go env.socket_fd refl
  where
    bound :
        (fd : ℕ)
        → env.socket_fd ≡ some fd
        → length path < env.sun_path_size
        → SocketReady env path b
            (bind_socket env path fd (did (os_unlink path) (did (os_socket fd) b)))
    bound fd e n = elim (Bool-cases env.bind_ok) [
      | inr x ↦ rw x (
          left_open fd _ (os_unlink path ∷ []) e (append_assoc b.os_calls (os_socket fd ∷ []) _)
            refl)
      | inl x ↦ rw x (elim (Bool-cases env.listen_ok) [
        | inr y ↦ rw y (
            left_open fd _ (os_unlink path ∷ os_bind fd path ∷ []) e
              (append_three b.os_calls (os_socket fd) (os_unlink path) (os_bind fd path)) refl)
        | inl y ↦ rw y (
            is_listening fd _ e n (
              append_assoc _ (os_bind fd path ∷ []) (os_listen fd ∷ [])
              ∙ append_assoc _ (os_unlink path ∷ []) (os_bind fd path ∷ os_listen fd ∷ [])
              ∙ append_assoc b.os_calls (os_socket fd ∷ []) _))
      ])
    ]

    go : (o : Option ℕ) → env.socket_fd ≡ o → SocketReady env path b (name_socket env path o b)
    go none e = no_socket _ e refl
    go (some fd) e = elim (Bool-cases (leb env.sun_path_size (length path))) [
      | inl long ↦ rw long (left_open fd _ [] e refl refl)
      | inr fits ↦ rw fits (bound fd e (ground (arith, fits)))
    ]
