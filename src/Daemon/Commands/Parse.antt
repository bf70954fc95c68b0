-- ===== src/Daemon/Commands/Parse.antt =====
-- How a line is read: the word of a command and its argument.
use jk16legacy.Prelude.{
  ℕ, ◌≡◌, refl, ◌≢◌, inl, inr, true, some, List, [], ◌∷◌, ◌++◌, arith, Bool-cases, length, All,
  Text, codes, c_str, strncmp_eq, strchr,
}
use jk16legacy.CommandQueue.{CmdId, power_on, power_off, sample, listen}
use jk16legacy.Daemon.Commands.{identify, underscore, param_of}
use mathlib.Core.Path.{subst}

-- The word with which a client writes a command.
abbrev command_word : CmdId → Text
command_word power_on = codes "power on"
command_word power_off = codes "power off"
command_word sample = codes "sample"
command_word CmdId.log = codes "log"
command_word listen = codes "listen"

-- Every command word, followed by anything, is read as its command.
identify-command_word : (id : CmdId) (rest : Text) → identify (command_word id ++ rest) ≡ some id
unfolding identify strncmp_eq
identify-command_word power_on rest = refl
identify-command_word power_off rest = refl
identify-command_word sample rest = refl
identify-command_word CmdId.log rest = refl
identify-command_word listen rest = refl

-- A command word, a space and an argument are read as the command and the whole argument, once the
-- space inside a power command has been overwritten.
param_of-command_word :
    (id : CmdId) (arg : Text)
    → param_of (underscore id (command_word id ++ (b' ' ∷ arg))) ≡ some arg
unfolding param_of underscore strchr
param_of-command_word power_on arg = refl
param_of-command_word power_off arg = refl
param_of-command_word sample arg = refl
param_of-command_word CmdId.log arg = refl
param_of-command_word listen arg = refl

-- No byte of the text is a zero.
abbrev pub IsCString : Text → Type 0
IsCString = All λ b. b ≢ 0

pub c_str-append :
    (text : Text) (rest : List ℕ) → IsCString text → c_str (text ++ (0 ∷ rest)) ≡ text
unfolding c_str
c_str-append [] rest h = refl
c_str-append (b ∷ text) rest h = ground (arith, c_str-append text rest h.1)

strncmp_eq-prefix :
    (cmd word : Text)
    → strncmp_eq cmd word (length word) ≡ true
    → (rest : Text) × (cmd ≡ word ++ rest)
unfolding strncmp_eq
strncmp_eq-prefix cmd [] h = (cmd, refl)
strncmp_eq-prefix [] (y ∷ word) h = cc
strncmp_eq-prefix (x ∷ cmd) (y ∷ word) h =
    let (rest, e) = strncmp_eq-prefix cmd word (ground arith) in (rest, ground arith)

-- The line begins with the word of a command, and `rest` follows.
abbrev Begins : Text → CmdId → Type 0
Begins cmd id = (rest : Text) × (cmd ≡ command_word id ++ rest)

-- A line is read as a command only if it begins with the word of that command.
identify_sound : (cmd : Text) (id : CmdId) → identify cmd ≡ some id → Begins cmd id
unfolding identify
identify_sound cmd id h = elim (Bool-cases (strncmp_eq cmd (codes "power on") 8)) [
  | inl e ↦
      subst (Begins cmd) (let k : power_on ≡ id = ground arith in k) (strncmp_eq-prefix cmd _ e)
  | inr n1 ↦ elim (Bool-cases (strncmp_eq cmd (codes "power off") 9)) [
    | inl e ↦
        subst (Begins cmd) (let k : power_off ≡ id = ground arith in k) (strncmp_eq-prefix cmd _ e)
    | inr n2 ↦ elim (Bool-cases (strncmp_eq cmd (codes "sample") 6)) [
      | inl e ↦
          subst (Begins cmd) (let k : sample ≡ id = ground arith in k) (strncmp_eq-prefix cmd _ e)
      | inr n3 ↦ elim (Bool-cases (strncmp_eq cmd (codes "log") 3)) [
        | inl e ↦
            subst (Begins cmd) (let k : CmdId.log ≡ id = ground arith in k)
              (strncmp_eq-prefix cmd _ e)
        | inr n4 ↦ elim (Bool-cases (strncmp_eq cmd (codes "listen") 6)) [
          | inl e ↦
              subst (Begins cmd) (let k : listen ≡ id = ground arith in k)
                (strncmp_eq-prefix cmd _ e)
          | inr n5 ↦ absurd (ground arith)
        ]
      ]
    ]
  ]
]
