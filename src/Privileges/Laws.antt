-- ===== src/Privileges/Laws.antt =====
-- daemon.h: the rights that the process has once main goes on.
use jk16legacy.Prelude.{
  zero, suc, ◌≡◌, refl, sym, ap, ◌∙◌, Option, none, some, List, [], ◌∷◌, ◌++◌, append-nil,
  append_assoc, arith, ℤ, pos, negsuc, append_three, Text, codes,
}
use jk16legacy.Privileges.{
  Passwd, Group, PrivInfo, SysCall, call_setgid, call_setgroups, call_setuid, call_chroot,
  call_chdir, System, Process, find_group, init_group, init_user, priv_init, drop_rights,
  drop_found, priv_drop, do_chroot, Started, goes_on, exits, unless, drop_part, chroot_part,
  no_info, pid_file_part, secure_part,
}
use mathlib.Core.Path.{subst}

-- The calls that put the process into a directory.
abbrev jail_calls : Option Text → List SysCall
jail_calls none = []
jail_calls (some dir) = call_chroot dir ∷ call_chdir (codes "/") ∷ []

-- The calls that give the process the rights of a user and a group.
abbrev right_calls : Passwd → Group → List SysCall
right_calls pw gr =
    call_setgid gr.gr_gid ∷ call_setgroups (gr.gr_gid ∷ []) ∷ call_setuid pw.pw_uid ∷ []

-- The process goes on only with all of the calls made, in this order.
abbrev HasCalled : List SysCall → Process → Started → Type 0
HasCalled made p (goes_on q) = q.calls ≡ p.calls ++ made
HasCalled made p (exits q) = Unit

drop_rights_lem :
    (sys : System) (pw : Passwd) (gr : Group) (p : Process)
    → (drop_rights sys pw gr p).0 ≡ pos 0
    → (drop_rights sys pw gr p).1.calls ≡ p.calls ++ right_calls pw gr
unfolding drop_rights
drop_rights_lem sys pw gr p h = ground (
  arith,
  append_three p.calls (call_setgid gr.gr_gid) (call_setgroups (gr.gr_gid ∷ []))
      (call_setuid pw.pw_uid),
)

do_chroot_lem :
    (sys : System) (dir : Text) (p : Process)
    → (do_chroot sys dir p).0 ≡ pos 0
    → (do_chroot sys dir p).1.calls ≡ p.calls ++ jail_calls (some dir)
unfolding do_chroot
do_chroot_lem sys dir p h =
    ground (arith, append_assoc p.calls (call_chroot dir ∷ []) (call_chdir (codes "/") ∷ []))

HasCalled-trans :
    (one two : List SysCall) (p q : Process) (s : Started)
    → q.calls ≡ p.calls ++ one
    → HasCalled two q s
    → HasCalled (one ++ two) p s
HasCalled-trans one two p q (goes_on r) e h =
    h ∙ (ap (λ cs. cs ++ two) e ∙ append_assoc p.calls one two)
HasCalled-trans one two p q (exits r) e h = tt

HasCalled-unless :
    (one two : List SysCall) (p : Process) (r : ℤ × Process) (next : Process → Started)
    → (r.0 ≡ pos 0 → r.1.calls ≡ p.calls ++ one)
    → ((q : Process) → HasCalled two q (next q))
    → HasCalled (one ++ two) p (unless r next)
HasCalled-unless one two p (pos zero, q) next e h =
    HasCalled-trans one two p q (next q) (e refl) (h q)
HasCalled-unless one two p (pos (suc n), q) next e h = ground arith
HasCalled-unless one two p (negsuc n, q) next e h = tt

drop_part-HasCalled :
    (sys : System) (user : Text) (pw : Passwd) (gr : Group) (p : Process)
    → HasCalled
        (right_calls pw gr)
        p
        (drop_part sys (some user) (record { pw_ = some pw; gr_ = some gr }) p)
unfolding drop_part priv_drop drop_found
drop_part-HasCalled sys user pw gr p =
    HasCalled-unless (right_calls pw gr) [] p (drop_rights sys pw gr p) (λ q. goes_on q)
      (drop_rights_lem sys pw gr p) (λ q. sym (append-nil q.calls))

chroot_part-HasCalled :
    (sys : System) (dir user : Option Text) (priv : PrivInfo) (p : Process) (made : List SysCall)
    → ((q : Process) → HasCalled made q (drop_part sys user priv q))
    → HasCalled (jail_calls dir ++ made) p (chroot_part sys dir user priv p)
unfolding chroot_part
chroot_part-HasCalled sys none user priv p made h = h p
chroot_part-HasCalled sys (some dir) user priv p made h =
    HasCalled-unless (jail_calls (some dir)) made p (do_chroot sys dir p) (drop_part sys user priv)
      (do_chroot_lem sys dir p) h

-- How main may leave this part: with the process in its directory; and, where a user is named, with
-- the rights of that user and of its group, and no other.
abbrev pub IsSecured : System → Option Text → Option Text → Option Text → Process → Started → Type 0
IsSecured sys none grp dir p s = HasCalled (jail_calls dir) p s
IsSecured sys (some user) grp dir p (exits q) = Unit
IsSecured sys (some user) grp dir p (goes_on q) =
    (pw : Passwd) × (gr : Group) × (sys.getpwnam user ≡ some pw)
    × (find_group sys pw grp ≡ some gr)
    × (q.calls ≡ p.calls ++ (jail_calls dir ++ right_calls pw gr))

named :
    (sys : System) (user : Text) (grp dir : Option Text) (p : Process) (pw : Passwd) (gr : Group)
    (s : Started)
    → sys.getpwnam user ≡ some pw
    → find_group sys pw grp ≡ some gr
    → HasCalled (jail_calls dir ++ right_calls pw gr) p s
    → IsSecured sys (some user) grp dir p s
named sys user grp dir p pw gr (goes_on q) e f h = (pw, gr, e, f, h)
named sys user grp dir p pw gr (exits q) e f h = tt

calls-pid_file_part :
    (sys : System) (file : Option Text) (p : Process) → (pid_file_part sys file p).calls ≡ p.calls
unfolding pid_file_part
calls-pid_file_part sys none p = refl
calls-pid_file_part sys (some f) p = refl

-- The file for the process id makes no difference to the calls.
HasCalled-file :
    (sys : System) (file : Option Text) (made : List SysCall) (p : Process) (s : Started)
    → HasCalled made (pid_file_part sys file p) s
    → HasCalled made p s
HasCalled-file sys file made p s h =
    HasCalled-trans [] made p (pid_file_part sys file p) s
      (calls-pid_file_part sys file p ∙ sym (append-nil p.calls)) h

abbrev after_init : System → Text → Option Text → Option Text → ℤ × PrivInfo × Process → Started
after_init sys user dir file r =
    unless (r.0, r.2) (λ q. chroot_part sys dir (some user) r.1 (pid_file_part sys file q))

group_found :
    (sys : System) (user : Text) (grp dir file : Option Text) (p : Process) (pw : Passwd)
    (o : Option Group)
    → sys.getpwnam user ≡ some pw
    → find_group sys pw grp ≡ o
    → IsSecured sys (some user) grp dir p (after_init sys user dir file (init_group pw grp o p))
unfolding init_group
group_found sys user grp dir file p pw none e f = tt
group_found sys user grp dir file p pw (some gr) e f = named sys user grp dir p pw gr _ e f (
    HasCalled-file sys file (jail_calls dir ++ right_calls pw gr) p _ (
      chroot_part-HasCalled sys dir (some user) (record { pw_ = some pw; gr_ = some gr })
        (pid_file_part sys file p) (right_calls pw gr) (drop_part-HasCalled sys user pw gr)))

user_found :
    (sys : System) (user : Text) (grp dir file : Option Text) (p : Process) (o : Option Passwd)
    → sys.getpwnam user ≡ o
    → IsSecured sys
        (some user)
        grp
        dir
        p
        (after_init sys user dir file (init_user sys user grp o p))
unfolding init_user
user_found sys user grp dir file p none e = tt
user_found sys user grp dir file p (some pw) e =
    group_found sys user grp dir file p pw (find_group sys pw grp) e refl

-- Whatever the system calls do, main goes on only in the directory that the options name, if they
-- name one, and only once it has dropped its rights, if they name a user: it has then made exactly
-- the calls chroot and chdir, and after them setgid, setgroups and setuid, in this order, for the
-- user of that name and its group, and all of them have succeeded.
pub secure_part-IsSecured :
    (sys : System) (user grp dir file : Option Text) (p : Process)
    → IsSecured sys user grp dir p (secure_part sys user grp dir file p)
unfolding secure_part priv_init drop_part
secure_part-IsSecured sys none grp dir file p = HasCalled-file sys file (jail_calls dir) p _ (
    subst
      (λ made.
        HasCalled made (pid_file_part sys file p)
          (chroot_part sys dir none no_info (pid_file_part sys file p)))
      (append-nil (jail_calls dir))
      (chroot_part-HasCalled sys dir none no_info (pid_file_part sys file p) []
        (λ q. sym (append-nil q.calls))))
secure_part-IsSecured sys (some user) grp dir file p =
    user_found sys user grp dir file p (sys.getpwnam user) refl
