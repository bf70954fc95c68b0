-- ===== src/Privileges.antt =====
-- powersensordaemon/daemon.h: priv_init, priv_drop and do_chroot, and the part of
-- powersensordaemon.c's main that calls them. The databases of users and groups and the results of
-- the system calls are the record `System`; do_chroot has no return statement on success, and what
-- main finds there is its field `off_end`.
pub mod Laws
use jk16legacy.Prelude.{
  ℕ, ◌/◌, Bool, not, Option, none, some, List, [], ◌∷◌, ◌++◌, ◌==◌, if◌then◌else◌, ℤ, pos, negsuc,
  is_zero, Text, codes, or_null,
}
use jk16legacy.World.{Prio, error, warning, notice, LogArg, str, World, log_event}
use jk16legacy.Options.{chroot}
use Prim.Native.String.{String}

pub record Passwd : Type 0 where
  pub pw_name : Text
  pub pw_uid : ℕ
  pub pw_gid : ℕ

pub record Group : Type 0 where
  pub gr_name : Text
  pub gr_gid : ℕ

-- struct priv_info_struct
pub record PrivInfo : Type 0 where
  pub pw_ : Option Passwd
  pub gr_ : Option Group

-- The system calls that change the rights of the process.
pub data SysCall : Type 0 where
  call_setgid : ℕ → SysCall
  call_setgroups : List ℕ → SysCall
  call_setuid : ℕ → SysCall
  call_chroot call_chdir : Text → SysCall

-- `setgid_ok` and the like: the call returns 0.
pub record System : Type 0 where
  pub getpwnam : Text → Option Passwd
  pub getgrnam : Text → Option Group
  pub getgrgid : ℕ → Option Group
  pub uid : ℕ
  pub setgid_ok : Bool
  pub setgroups_ok : Bool
  pub setuid_ok : Bool
  pub chroot_ok : Bool
  pub chdir_ok : Bool
  -- fopen can write the file for the process id
  pub pid_file_ok : Bool
  pub error_text : Text
  pub off_end : ℤ

-- The calls that the process has made and that have succeeded, in order, and its world.
pub record Process : Type 0 where
  pub calls : List SysCall
  pub world : World

abbrev called : SysCall → Process → Process
called call p = record p { calls = p.calls ++ (call ∷ []) }

abbrev say : Prio → String → List LogArg → Process → Process
say prio f args p = record p { world = log_event prio f args p.world }

pub find_group : System → Passwd → Option Text → Option Group
find_group sys pw none = sys.getgrgid pw.pw_gid
find_group sys pw (some grp) = sys.getgrnam grp

pub init_group : Passwd → Option Text → Option Group → Process → ℤ × PrivInfo × Process
unfolding log_event
init_group pw grp none p = (
  negsuc 0,
  record { pw_ = some pw; gr_ = none },
  say error "unkown group %s" (str (or_null grp) ∷ []) p,
)
init_group pw grp (some gr) p = (pos 0, record { pw_ = some pw; gr_ = some gr }, p)

pub init_user : System → Text → Option Text → Option Passwd → Process → ℤ × PrivInfo × Process
unfolding log_event init_group find_group
init_user sys user grp none p =
    (negsuc 0, record { pw_ = none; gr_ = none }, say error "unkown user %s" (str user ∷ []) p)
init_user sys user grp (some pw) p = init_group pw grp (find_group sys pw grp) p

pub priv_init : System → Text → Option Text → Process → ℤ × PrivInfo × Process
unfolding init_user
priv_init sys user grp p = init_user sys user grp (sys.getpwnam user) p

-- if(call) { log_printf(…); return -1; } and what follows it, for the process behind the call and
-- the one that has logged.
abbrev attempt : Bool → Process → Process → (Process → ℤ × Process) → ℤ × Process
attempt ok done bad k = if ok then k done else (negsuc 0, bad)

-- setgid, setgroups and setuid, each only where the one before it has succeeded.
pub drop_rights : System → Passwd → Group → Process → ℤ × Process
unfolding log_event
drop_rights sys pw gr p =
    attempt sys.setgid_ok (called (call_setgid gr.gr_gid) p)
      (say error "setgid('%s') failed: %s" (str gr.gr_name ∷ str sys.error_text ∷ []) p)
      (λ p1.
        attempt sys.setgroups_ok (called (call_setgroups (gr.gr_gid ∷ [])) p1)
          (say error "setgroups(['%s']) failed: %s" (str gr.gr_name ∷ str sys.error_text ∷ []) p1)
          (λ p2.
            attempt sys.setuid_ok (called (call_setuid pw.pw_uid) p2)
              (say error "setuid('%s') failed: %s" (str pw.pw_name ∷ str sys.error_text ∷ []) p2)
              (λ p3. (
                pos 0,
                say notice "dropped privileges to %s:%s" (str pw.pw_name ∷ str gr.gr_name ∷ []) p3,
              ))))

pub drop_found : System → Option Passwd → Option Group → Process → ℤ × Process
unfolding log_event drop_rights
drop_found sys none gr p = (negsuc 0, say error "privileges not initialized properly" [] p)
drop_found sys (some pw) none p = (negsuc 0, say error "privileges not initialized properly" [] p)
drop_found sys (some pw) (some gr) p = drop_rights sys pw gr p

pub priv_drop : System → PrivInfo → Process → ℤ × Process
unfolding drop_found
priv_drop sys priv p = drop_found sys priv.pw_ priv.gr_ p

pub do_chroot : System → Text → Process → ℤ × Process
unfolding log_event
do_chroot sys chrootdir p =
    attempt (sys.uid == 0) p
      (say error "this programm has to be run as root in order to run in a chroot" [] p)
      (λ p1.
        attempt sys.chroot_ok
          (say notice "we are in chroot jail (%s) now" (str chrootdir ∷ [])
            (called (call_chroot chrootdir) p1))
          (say error "can't chroot to %s: %s" (str chrootdir ∷ str sys.error_text ∷ []) p1)
          (λ p2.
            attempt sys.chdir_ok (called (call_chdir (codes "/")) p2)
              (say error "can't change to /: %s" (str sys.error_text ∷ []) p2)
              (λ p3. (sys.off_end, p3))))

-- How the part of main ends: it goes on, or the process exits with -1.
pub data Started : Type 0 where
  goes_on exits : Process → Started

abbrev pub unless : ℤ × Process → (Process → Started) → Started
unless (ret, p) k = if is_zero ret then k p else exits p

-- if(opt.username_) if(priv_drop(&priv)) …
pub drop_part : System → Option Text → PrivInfo → Process → Started
unfolding priv_drop
drop_part sys none priv p = goes_on p
drop_part sys (some user) priv p = unless (priv_drop sys priv p) (λ q. goes_on q)

-- if(opt.chroot_dir_) if(do_chroot(opt.chroot_dir_)) … and what follows it
pub chroot_part : System → Option Text → Option Text → PrivInfo → Process → Started
unfolding do_chroot drop_part
chroot_part sys none user priv p = drop_part sys user priv p
chroot_part sys (some dir) user priv p = unless (do_chroot sys dir p) (drop_part sys user priv)

abbrev pub no_info : PrivInfo
no_info = record { pw_ = none; gr_ = none }

-- if(opt.pid_file_) …: the file for the process id is opened, before the directory changes.
pub pid_file_part : System → Option Text → Process → Process
unfolding log_event
pid_file_part sys none p = p
pid_file_part sys (some file) p = record p {
  world =
      if sys.pid_file_ok
      then p.world
      else log_event warning "unable to open pid file: %s" (str sys.error_text ∷ []) p.world;
}

-- From priv_init on: the names of the user, of the group, of the directory and of the file for the
-- process id. (Without a user name main leaves `priv` as it is, and does not read it.)
unfoldable pub secure_part :
    System → Option Text → Option Text → Option Text → Option Text → Process → Started
unfolding chroot_part priv_init pid_file_part
secure_part sys none grp dir file p = chroot_part sys dir none no_info (pid_file_part sys file p)
secure_part sys (some user) grp dir file p =
    let (ret, priv, p1) = priv_init sys user grp p in
    unless (ret, p1) (λ q. chroot_part sys dir (some user) priv (pid_file_part sys file q))
