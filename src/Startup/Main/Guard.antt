-- ===== src/Startup/Main/Guard.antt =====
-- main takes its rights before it opens the command socket, the serial line or a pipe.
use jk16legacy.Prelude.{◌≡◌, ◌⊎◌, Bool, true, false, List, [], ◌++◌, map, ℤ, All}
use jk16legacy.World.{World}
use jk16legacy.Options.{Options}
use jk16legacy.Privileges.{SysCall, System, Process, goes_on}
use jk16legacy.Privileges.Laws.{IsSecured}
use jk16legacy.Startup.{OsCall, os_rights, os_print}

-- A call that takes rights away, or prints.
abbrev pub is_harmless : OsCall → Bool
is_harmless (os_rights c) = true
is_harmless (os_print f args) = true
is_harmless _ = false

-- The calls that give the process its directory, and the rights of its user and group, are those
-- that secure_part allows from a process that has made none.
abbrev pub TakesRights : System → Options → List SysCall → Type 0
TakesRights sys o made =
    (p : Process) × (q : Process) × (p.calls ≡ [])
    × (q.calls ≡ made)
    × IsSecured sys o.username_ o.groupname_ o.chroot_dir_ p (goes_on q)

-- Either nothing has been opened, or the rights have been taken before.
abbrev pub IsGuarded : System → Options → List OsCall → Type 0
IsGuarded sys o cs =
    All (λ c. is_harmless c ≡ true) cs
    ⊎ ((made : List SysCall) × TakesRights sys o made
        × (more : List OsCall) × (cs ≡ map (λ c. os_rights c) made ++ more))

-- The same names of the user, the group and the directory.
record SameNames (o o' : Options) : Type 0 where
  user : o'.username_ ≡ o.username_
  group : o'.groupname_ ≡ o.groupname_
  dir : o'.chroot_dir_ ≡ o.chroot_dir_

-- A result has them.
record KeepsNames (o : Options) (r : ℤ × Options × World) : Type 0 where
  names : SameNames o r.1
