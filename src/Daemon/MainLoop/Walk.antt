-- ===== src/Daemon/MainLoop/Walk.antt =====
-- The reading parts of the body: the autosample process, and the walk over the clients.
use jk16legacy.Prelude.{
  ℕ, ◌≡◌, refl, ◌∙◌, ◌≢◌, inl, inr, Bool, Option, none, some, List, [], ◌∷◌, map, ◌==◌, Bool-cases,
  is_zero, eq_of_some, is_two, All,
}
use jk16legacy.World.{debug, num, log_event}
use jk16legacy.ClientList.{Client, client_remove, client_find, client_update}
use jk16legacy.Daemon.Commands.Laws.{identity}
use jk16legacy.Daemon.Lines.{LineResult, nonblock_readline}
use jk16legacy.Daemon.Lines.Laws.{IsInBounds, nonblock_readline-IsInBounds}
use jk16legacy.Daemon.MainLoop.{
  Round, Autosample, Setup, Loop, on, fd_clr, autosample_line, autosample_ready, autosample_part,
  set_buffer, client_line, read_client, clients_walk,
}
use jk16legacy.Daemon.MainLoop.Clients.{
  Ident, All-mono, All-both, All-set_buffer, IsDistinctIds-set_buffer, All-remove,
  IsDistinctIds-remove,
}
use jk16legacy.Daemon.MainLoop.Invariant.{
  IsApart, IsServed, IsSound, Ends, Ends-check, Ends-if, fd_isset-fd_clr,
}
use jk16legacy.Daemon.MainLoop.Parts.{after_line-IsSound}

IsServed-fd_clr :
    (c : Setup) (fd : ℕ) (ds : List ℕ) (m : ℕ) (i : Ident)
    → IsServed c ds m i
    → i.0 ≢ fd
    → IsServed c (fd_clr fd ds) m i
IsServed-fd_clr c fd ds m i v ne = record {
  watched = fd_isset-fd_clr i.0 fd ds ne ∙ v.watched;
  in_range = v.in_range;
  in_bounds = v.in_bounds;
  apart = v.apart;
}

autosample_line-IsSound :
    (c : Setup) (a : Autosample) (t : LineResult) (l : Loop)
    → c.autosample ≡ some a
    → IsSound c (record l { shared = t.shared })
    → IsInBounds t.buffer
    → Ends (IsSound c) (IsSound c) (autosample_line a.write_fd_ t l)
unfolding autosample_line
autosample_line-IsSound c a t l e v b =
    let kept : IsSound c (record l { autosample_buffer = t.buffer; shared = t.shared }) = record {
      serial = v.serial;
      distinct = v.distinct;
      served = v.served;
      tty_in_bounds = v.tty_in_bounds;
      autosample_in_bounds = b;
    } in
    Ends-if (IsSound c) (IsSound c) (is_two t.ret) _ _
      (record {
        serial = v.serial;
        distinct = v.distinct;
        served =
            All-mono (IsServed c l.readfds l.max_fd) _ (map identity t.shared.client_lst)
              (λ i s.
                IsServed-fd_clr c a.write_fd_ l.readfds l.max_fd i s
                  (let h : IsApart (some a) i.0 = rw e at s.apart in h))
              v.served;
        tty_in_bounds = v.tty_in_bounds;
        autosample_in_bounds = b;
      })
      (Ends-check (IsSound c) (IsSound c) t.ret _ kept kept)

pub autosample_part-IsSound :
    (c : Setup) (r : Round) (tmpfds : ℕ → Bool) (l : Loop)
    → IsSound c l
    → Ends (IsSound c) (IsSound c) (autosample_part c r tmpfds l)
unfolding autosample_part
autosample_part-IsSound c r tmpfds l v = go c.autosample refl
  where
    go :
        (o : Option Autosample)
        → c.autosample ≡ o
        → Ends (IsSound c) (IsSound c) (autosample_ready c r tmpfds o l)
    go none e = v
    go (some a) e =
        Ends-if (IsSound c) (IsSound c) (tmpfds a.write_fd_) _ (on l)
          (autosample_line-IsSound c a
            (nonblock_readline c.opt a.write_fd_ (r.reads a.write_fd_) l.autosample_buffer l.shared)
            l e (after_line-IsSound c a.write_fd_ (r.reads a.write_fd_) l.autosample_buffer l v)
            (nonblock_readline-IsInBounds c.opt a.write_fd_ (r.reads a.write_fd_)
              l.autosample_buffer l.shared v.autosample_in_bounds))
          v

-- A client's line has been read into the buffer `t.buffer`.
client_line-IsSound :
    (c : Setup) (fd : ℕ) (t : LineResult) (l : Loop)
    → IsSound c (record l { shared = t.shared })
    → IsInBounds t.buffer
    → IsSound c (client_line fd t l)
unfolding client_line
client_line-IsSound c fd t l v b =
    let cs = client_update (set_buffer t.buffer) t.shared.client_lst fd in
    let w =
      log_event debug "removing closed command connection (fd=%d)" (num fd ∷ []) t.shared.world in
    let kept_ids = IsDistinctIds-set_buffer t.buffer fd t.shared.client_lst v.distinct in
    let kept_served : All (IsServed c l.readfds l.max_fd) (map identity cs) =
      All-set_buffer (IsServed c l.readfds l.max_fd) t.buffer fd t.shared.client_lst
        (λ d old s. record {
          watched = s.watched;
          in_range = s.in_range;
          in_bounds = b;
          apart = s.apart;
        })
        v.served in
    let (gone_ids, gone) = IsDistinctIds-remove fd cs w kept_ids in
    elim (Bool-cases (is_two t.ret)) [
      | inl e ↦ rw e (record {
        serial = v.serial;
        distinct = gone_ids;
        served =
            All-both (IsServed c l.readfds l.max_fd) (λ j. j.0 ≢ fd) _
              (map identity (client_remove cs fd w).0)
              (λ i s ne. IsServed-fd_clr c fd l.readfds l.max_fd i s ne)
              (All-remove (IsServed c l.readfds l.max_fd) fd cs w kept_served) gone;
        tty_in_bounds = v.tty_in_bounds;
        autosample_in_bounds = v.autosample_in_bounds;
      })
      | inr e ↦ rw e (record {
        serial = v.serial;
        distinct = kept_ids;
        served = kept_served;
        tty_in_bounds = v.tty_in_bounds;
        autosample_in_bounds = v.autosample_in_bounds;
      })
    ]

-- The buffer of a client that is found has room.
found-IsInBounds :
    (c : Setup) (ds : List ℕ) (m fd : ℕ) (cs : List Client) (k : Client)
    → All (IsServed c ds m) (map identity cs)
    → client_find cs fd ≡ some k
    → IsInBounds k.buffer
unfolding client_find
found-IsInBounds c ds m fd [] k h e = cc
found-IsInBounds c ds m fd (x ∷ cs) k h e = elim (Bool-cases (x.fd == fd)) [
  | inl y ↦ rw (← eq_of_some (rw y at e)) (h.0.in_bounds)
  | inr n ↦ found-IsInBounds c ds m fd cs k h.1 (rw n at e)
]

read_client-IsSound :
    (c : Setup) (r : Round) (fd : ℕ) (o : Option Client) (l : Loop)
    → client_find l.shared.client_lst fd ≡ o
    → IsSound c l
    → IsSound c (read_client c r fd o l).1
unfolding read_client
read_client-IsSound c r fd none l e v = v
read_client-IsSound c r fd (some k) l e v =
    client_line-IsSound c fd (nonblock_readline c.opt fd (r.reads fd) k.buffer l.shared) l
      (after_line-IsSound c fd (r.reads fd) k.buffer l v)
      (nonblock_readline-IsInBounds c.opt fd (r.reads fd) k.buffer l.shared
        (found-IsInBounds c l.readfds l.max_fd fd l.shared.client_lst k v.served e))

pub clients_walk-IsSound :
    (c : Setup) (r : Round) (tmpfds : ℕ → Bool) (fds : List ℕ) (l : Loop)
    → IsSound c l
    → IsSound c (clients_walk c r tmpfds fds l).1
unfolding clients_walk
clients_walk-IsSound c r tmpfds [] l v = v
clients_walk-IsSound c r tmpfds (fd ∷ fds) l v =
    let (ret, l') = read_client c r fd (client_find l.shared.client_lst fd) l in
    let read = read_client-IsSound c r fd (client_find l.shared.client_lst fd) l refl v in
    elim (Bool-cases (tmpfds fd)) [
      | inl e ↦ rw e (elim (Bool-cases (is_zero ret)) [
        | inl z ↦ rw z (clients_walk-IsSound c r tmpfds fds l' read)
        | inr z ↦ rw z read
      ])
      | inr e ↦ rw e (clients_walk-IsSound c r tmpfds fds l v)
    ]
