-- ===== src/Daemon/MainLoop/Invariant.antt =====
-- The invariant of main_loop, kept by every run of its body.
use jk16legacy.Prelude.{
  ℕ, ◌≤◌, ◌≡◌, refl, ◌≢◌, inl, inr, Bool, true, false, Option, none, some, List, [], ◌∷◌, ◌++◌, map,
  arith, ltb, if◌then◌else◌, Bool-cases, ℤ, is_zero, All, All-append,
}
use jk16legacy.World.{debug, num, log_event}
use jk16legacy.Datatypes.{empty_buffer}
use jk16legacy.CommandQueue.{Cmd, cmd_pop}
use jk16legacy.ClientList.Laws.{client_add_cases}
use jk16legacy.Daemon.Commands.Laws.{QueueChange, unchanged, pushed, identity}
use jk16legacy.Daemon.Lines.Laws.{IsInBounds}
use jk16legacy.Daemon.MainLoop.{
  Round, Autosample, Setup, Loop, Flow, on, next_run, leave, hangs, ◌>>=◌, fd_isset, fd_clr, check,
  add_connection,
}
use jk16legacy.Daemon.MainLoop.Clients.{Ident, IsDistinctIds, All-mono, IsDistinctIds-append}
use mathlib.Core.List.{map-append}

-- Only the first command of the queue may have been sent.
abbrev pub IsSerial : List Cmd → Type 0
IsSerial [] = Unit {0}
IsSerial (c ∷ q) = All (λ d. d.sent ≡ false) q

-- The autosample process does not write to the descriptor.
abbrev pub IsApart : Option Autosample → ℕ → Type 0
IsApart none fd = Unit {0}
IsApart (some a) fd = fd ≢ a.write_fd_

-- select watches the client, its buffer has room, and it is not the autosample process.
pub record IsServed (c : Setup) (readfds : List ℕ) (max_fd : ℕ) (i : Ident) : Type 0 where
  pub watched : fd_isset i.0 readfds ≡ true
  pub in_range : i.0 ≤ max_fd
  pub in_bounds : IsInBounds i.1
  pub apart : IsApart c.autosample i.0

pub record IsSound (c : Setup) (l : Loop) : Type 0 where
  pub serial : IsSerial l.shared.cmd_q
  pub distinct : IsDistinctIds (map identity l.shared.client_lst)
  pub served : All (IsServed c l.readfds l.max_fd) (map identity l.shared.client_lst)
  pub tty_in_bounds : IsInBounds l.tty_buffer
  pub autosample_in_bounds : IsInBounds l.autosample_buffer

-- What holds of the variables where a part of the body falls through (`P`), and where it leaves
-- the body (`Q`).
abbrev pub Ends : (Loop → Type 0) → (Loop → Type 0) → Flow → Type 0
Ends P Q (on l) = P l
Ends P Q (next_run l) = Q l
Ends P Q (leave r l) = Q l
Ends P Q hangs = Unit {0}

pub Ends-bind :
    (P R Q : Loop → Type 0) (m : Flow) (f : Loop → Flow)
    → Ends P Q m
    → ((l : Loop) → P l → Ends R Q (f l))
    → Ends R Q (m >>= f)
Ends-bind P R Q (on l) f h k = k l h
Ends-bind P R Q (next_run l) f h k = h
Ends-bind P R Q (leave r l) f h k = h
Ends-bind P R Q hangs f h k = h

pub Ends-check : (P Q : Loop → Type 0) (r : ℤ) (l : Loop) → P l → Q l → Ends P Q (check r l)
Ends-check P Q r l h k = elim (Bool-cases (is_zero r)) [ inl e ↦ rw e h | inr e ↦ rw e k ]

pub Ends-if :
    (P Q : Loop → Type 0) (b : Bool) (x y : Flow)
    → Ends P Q x
    → Ends P Q y
    → Ends P Q (if b then x else y)
Ends-if P Q true x y h k = h
Ends-if P Q false x y h k = k

pub Ends-test :
    (P Q : Loop → Type 0) (b : Bool) (x y : Flow)
    → (b ≡ true → Ends P Q x)
    → (b ≡ false → Ends P Q y)
    → Ends P Q (if b then x else y)
Ends-test P Q true x y h k = h refl
Ends-test P Q false x y h k = k refl

-- What accept returns is a descriptor that no client has, nor the autosample process.
abbrev pub AcceptsNew : Setup → Option ℕ → Loop → Type 0
AcceptsNew c none l = Unit {0}
AcceptsNew c (some fd) l =
    All (λ j. j.0 ≢ fd) (map identity l.shared.client_lst) × IsApart c.autosample fd

IsSerial-append : (q : List Cmd) (c : Cmd) → c.sent ≡ false → IsSerial q → IsSerial (q ++ (c ∷ []))
IsSerial-append [] c e h = tt
IsSerial-append (d ∷ q) c e h = All-append (λ x. x.sent ≡ false) q (c ∷ []) h (e, tt)

pub IsSerial-change : (fd : ℕ) (q q' : List Cmd) → QueueChange fd q q' → IsSerial q → IsSerial q'
IsSerial-change fd q q' (unchanged e) h = rw e h
IsSerial-change fd q q' (pushed id param e) h = rw e (IsSerial-append q _ refl h)

pub IsSerial-pop : (q : List Cmd) → IsSerial q → IsSerial (cmd_pop q)
unfolding cmd_pop
IsSerial-pop [] h = tt
IsSerial-pop (c ∷ []) h = tt
IsSerial-pop (c ∷ d ∷ q) h = h.1

pub record IsSoundFor (c : Setup) (r : Round) (l : Loop) : Type 0 where
  pub sound : IsSound c l
  pub accepts : AcceptsNew c r.accepted l

pub AcceptsNew-same :
    (c : Setup) (a : Option ℕ) (l l' : Loop)
    → map identity l'.shared.client_lst ≡ map identity l.shared.client_lst
    → AcceptsNew c a l
    → AcceptsNew c a l'
AcceptsNew-same c none l l' e h = tt
AcceptsNew-same c (some fd) l l' e h = (rw e h.0, h.1)

fd_isset-cons : (fd d : ℕ) (ds : List ℕ) → fd_isset fd ds ≡ true → fd_isset fd (d ∷ ds) ≡ true
unfolding fd_isset
fd_isset-cons fd d ds h = ground arith

fd_isset_self : (fd : ℕ) (ds : List ℕ) → fd_isset fd (fd ∷ ds) ≡ true
unfolding fd_isset
fd_isset_self fd ds = ground arith

pub fd_isset-fd_clr : (fd d : ℕ) (ds : List ℕ) → fd ≢ d → fd_isset fd (fd_clr d ds) ≡ fd_isset fd ds
unfolding fd_isset fd_clr
fd_isset-fd_clr fd d [] ne = refl
fd_isset-fd_clr fd d (x ∷ ds) ne = ground (arith, fd_isset-fd_clr fd d ds ne)

pub empty-IsInBounds : IsInBounds empty_buffer
empty-IsInBounds = record { size = refl; next = omega arith }

IsServed-wider :
    (c : Setup) (fd : ℕ) (ds : List ℕ) (m : ℕ) (i : Ident)
    → IsServed c ds m i
    → IsServed c (fd ∷ ds) (if ltb m fd then fd else m) i
IsServed-wider c fd ds m i v = record {
  watched = fd_isset-cons i.0 fd ds v.watched;
  in_range = ground (arith, v.in_range);
  in_bounds = v.in_bounds;
  apart = v.apart;
}

IsServed-new :
    (c : Setup) (fd : ℕ) (ds : List ℕ) (m : ℕ)
    → IsApart c.autosample fd
    → IsServed c (fd ∷ ds) (if ltb m fd then fd else m) (fd, empty_buffer)
IsServed-new c fd ds m a = record {
  watched = fd_isset_self fd ds;
  in_range = ground arith;
  in_bounds = empty-IsInBounds;
  apart = a;
}

pub add_connection-IsSound :
    (c : Setup) (fd : ℕ) (l : Loop)
    → IsSound c l
    → All (λ j. j.0 ≢ fd) (map identity l.shared.client_lst)
    → IsApart c.autosample fd
    → IsSound c (add_connection fd l)
unfolding add_connection
add_connection-IsSound c fd l v fresh apart =
    let w = log_event debug "new command connection (fd=%d)" (num fd ∷ []) l.shared.world in
    let wider =
      All-mono (IsServed c l.readfds l.max_fd)
        (IsServed c (fd ∷ l.readfds) (if ltb l.max_fd fd then fd else l.max_fd))
        (map identity l.shared.client_lst) (IsServed-wider c fd l.readfds l.max_fd) v.served in
    elim (client_add_cases l.shared.client_lst fd w) [
      | inl h ↦ record {
        serial = v.serial;
        distinct =
            rw (h.1, map-append)
              (IsDistinctIds-append (map identity l.shared.client_lst) (fd, empty_buffer) v.distinct
                fresh);
        served =
            rw (h.1, map-append)
              (All-append _ (map identity l.shared.client_lst) ((fd, empty_buffer) ∷ []) wider
                (IsServed-new c fd l.readfds l.max_fd apart, tt));
        tty_in_bounds = v.tty_in_bounds;
        autosample_in_bounds = v.autosample_in_bounds;
      }
      | inr h ↦ record {
        serial = v.serial;
        distinct = rw h.1 v.distinct;
        served = rw h.1 wider;
        tty_in_bounds = v.tty_in_bounds;
        autosample_in_bounds = v.autosample_in_bounds;
      }
    ]
