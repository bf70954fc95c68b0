-- ===== src/Daemon/Tty/Kinds.antt =====
-- The kinds of lines of the firmware, and whom the four tests of process_tty notify.
use jk16legacy.Prelude.{
  ℕ, suc, ◌≡◌, refl, sym, ◌≢◌, inl, inr, Bool, true, false, ◌||◌, Option, none, some, List, [], ◌∷◌,
  ◌++◌, append-nil, arith, ◌==◌, if◌then◌else◌, Bool-cases, Text, codes, strncmp_eq,
}
use jk16legacy.World.{World, received}
use jk16legacy.ClientList.{Client, client_find}
use jk16legacy.ClientList.Laws.{IsDistinct}
use jk16legacy.Daemon.Send.{send_to_listeners}
use jk16legacy.Daemon.Send.Listeners.{is_addressee, send_to_listeners_delivers}
use jk16legacy.Daemon.Tty.{notify_listeners}

-- What a line of the firmware is.
pub data Kind : Type 0 where
  error_line movement_line button_line sensor_line plain_line : Kind

abbrev pub kind_of : Text → Kind
kind_of line =
    if strncmp_eq line (codes "Error:") 6
    then error_line
    else if strncmp_eq line (codes "movement") 8
    then movement_line
    else if strncmp_eq line (codes "PanicButton") 11
    then button_line
    else if strncmp_eq line (codes "Sensor ") 7
    then sensor_line
    else plain_line

-- The flag of the clients that listen to lines of a kind.
abbrev pub listens_to : Kind → Client → Bool
listens_to error_line c = c.error_listener
listens_to movement_line c = c.movement_listener
listens_to button_line c = c.button_listener
listens_to sensor_line c = c.sensor_listener
listens_to plain_line c = false

-- A line that passes one of the tests starts with another byte than the other three want.
starts_with_byte :
    (line : Text) (b : ℕ) (bs : Text) (n : ℕ)
    → strncmp_eq line (b ∷ bs) (suc n) ≡ true
    → (rest : Text) × (line ≡ b ∷ rest)
unfolding strncmp_eq
starts_with_byte [] b bs n h = cc
starts_with_byte (x ∷ line) b bs n h = (line, ground arith)

differs :
    (line : Text) (b : ℕ) (bs : Text) (n c : ℕ) (cs : Text) (m : ℕ)
    → b ≢ c
    → strncmp_eq line (b ∷ bs) (suc n) ≡ true
    → strncmp_eq line (c ∷ cs) (suc m) ≡ false
unfolding strncmp_eq
differs line b bs n c cs m ne h =
    let (rest, e) = starts_with_byte line b bs n h in rw e (ground arith)

-- A client of the list that is to receive a line: the one of the first command, or a listener of
-- the kind.
abbrev pub is_receiver : Kind → Option ℕ → Option Client → ℕ → Bool
is_receiver k none found j = is_addressee (listens_to k) none found
is_receiver k (some fd) found j = fd == j || is_addressee (listens_to k) (some fd) found

-- what SEND_TO_LISTENER, run for the kind of the line alone, does
abbrev sends_kind : Kind → Option ℕ → Text → List Client → World → World
sends_kind error_line fd r cs w = send_to_listeners (λ c. c.error_listener) "error" fd r cs w
sends_kind movement_line fd r cs w =
    send_to_listeners (λ c. c.movement_listener) "movement" fd r cs w
sends_kind button_line fd r cs w =
    send_to_listeners (λ c. c.button_listener) "panic button" fd r cs w
sends_kind sensor_line fd r cs w =
    send_to_listeners (λ c. c.sensor_listener) "sensor data" fd r cs w
sends_kind plain_line fd r cs w = w

-- At most one of the four tests passes.
pub notify_listeners_kind :
    (line : Text) (fd : Option ℕ) (r : Text) (cs : List Client) (w : World)
    → notify_listeners line fd r cs w ≡ sends_kind (kind_of line) fd r cs w
unfolding notify_listeners
notify_listeners_kind line fd r cs w = elim (Bool-cases (strncmp_eq line (codes "Error:") 6)) [
  | inl e ↦ rw (
    e,
    differs line _ _ _ b'm' _ _ (omega arith) e,
    differs line _ _ _ b'P' _ _ (omega arith) e,
    differs line _ _ _ b'S' _ _ (omega arith) e,
  )
  | inr n1 ↦ elim (Bool-cases (strncmp_eq line (codes "movement") 8)) [
    | inl e ↦ rw (
      n1,
      e,
      differs line _ _ _ b'P' _ _ (omega arith) e,
      differs line _ _ _ b'S' _ _ (omega arith) e,
    )
    | inr n2 ↦ elim (Bool-cases (strncmp_eq line (codes "PanicButton") 11)) [
      | inl e ↦ rw (n1, n2, e, differs line _ _ _ b'S' _ _ (omega arith) e)
      | inr n3 ↦ elim (Bool-cases (strncmp_eq line (codes "Sensor ") 7)) [
        | inl e ↦ rw (n1, n2, n3, e)
        | inr n4 ↦ rw (n1, n2, n3, n4)
      ]
    ]
  ]
]

addressee_plain :
    (fd : Option ℕ) (found : Option Client) → is_addressee (λ c. false) fd found ≡ false
addressee_plain fd none = refl
addressee_plain fd (some c) = refl

abbrev pub line_if : Bool → Text → Text
line_if b r = if b then r ++ (b'\n' ∷ []) else []

pub sends_kind_delivers :
    (k : Kind) (fd : Option ℕ) (r : Text) (cs : List Client) (w : World) (j : ℕ)
    → w.writes ≡ []
    → IsDistinct cs
    → received j (sends_kind k fd r cs w).trace
      ≡ received j w.trace ++ line_if (is_addressee (listens_to k) fd (client_find cs j)) r
sends_kind_delivers error_line fd r cs w j e d = send_to_listeners_delivers _ _ fd r cs w j e d
sends_kind_delivers movement_line fd r cs w j e d = send_to_listeners_delivers _ _ fd r cs w j e d
sends_kind_delivers button_line fd r cs w j e d = send_to_listeners_delivers _ _ fd r cs w j e d
sends_kind_delivers sensor_line fd r cs w j e d = send_to_listeners_delivers _ _ fd r cs w j e d
sends_kind_delivers plain_line fd r cs w j e d =
    rw (addressee_plain fd (client_find cs j)) (sym (append-nil (received j w.trace)))
