-- ===== src/Daemon/Tty/Delivery.antt =====
-- Who receives a line of the firmware.
use jk16legacy.Prelude.{
  ℕ, ◌≡◌, refl, ap, ◌∙◌, inl, inr, Option, none, some, List, [], ◌∷◌, ◌++◌, append-nil, arith, ◌==◌,
  if◌then◌else◌, Bool-cases, Option-cases, ℤ, drop, Text, codes, strncmp_eq,
}
use jk16legacy.World.{
  Prio, warning, notice, LogArg, str, wrote, logged, World, log_event, received, received-append,
}
use jk16legacy.CommandQueue.{Cmd}
use jk16legacy.ClientList.{Client, client_find}
use jk16legacy.ClientList.Laws.{IsDistinct, client_find-fd}
use jk16legacy.KeyValue.{key_value_storage_find_first_stringvalue}
use jk16legacy.Daemon.Send.{send_response}
use jk16legacy.Daemon.Send.Response.{send_response_whole}
use jk16legacy.Daemon.Send.Listeners.{is_addressee}
use jk16legacy.Daemon.Commands.{Devices, Shared}
use jk16legacy.Daemon.Tty.{translate_key, translate, answer_first, notify_listeners, firmware_line}
use jk16legacy.Daemon.Tty.Kinds.{
  Kind, kind_of, listens_to, is_receiver, notify_listeners_kind, line_if, sends_kind_delivers,
}
use Prim.Native.String.{String}

received-logged :
    (j : ℕ) (p : Prio) (f : String) (args : List LogArg) (w : World)
    → received j (log_event p f args w).trace ≡ received j w.trace
unfolding log_event received
received-logged j p f args w =
    received-append j w.trace (logged p f args ∷ []) ∙ append-nil (received j w.trace)

-- A translation writes nothing.
record IsQuiet (w : World) (r : Text × World) : Type 0 where
  pub writes_same : r.1.writes ≡ w.writes
  pub silent : (j : ℕ) → received j r.1.trace ≡ received j w.trace

translate_key-IsQuiet :
    (opt : Devices) (line rest : Text) (w : World) → IsQuiet w (translate_key opt line rest w)
unfolding translate_key
translate_key-IsQuiet opt line [] w = record { writes_same = refl; silent = λ j. refl }
translate_key-IsQuiet opt line (k ∷ rest) w =
    elim (Option-cases (key_value_storage_find_first_stringvalue opt.sampledevs_ (some (k ∷ [])))) [
      | inl n ↦
          rw (n, translate_key)
            (record {
              writes_same = unfold log_event in refl;
              silent = λ j. received-logged j warning _ _ w;
            })
      | inr (name, e) ↦ rw (e, translate_key) (record { writes_same = refl; silent = λ j. refl })
    ]

translate-IsQuiet : (opt : Devices) (line : Text) (w : World) → IsQuiet w (translate opt line w)
unfolding translate
translate-IsQuiet opt line w = elim (Bool-cases (strncmp_eq line (codes "Sensor ") 7)) [
  | inl e ↦ rw e (translate_key-IsQuiet opt line (drop 7 line) w)
  | inr e ↦ rw e (record { writes_same = refl; silent = λ j. refl })
]

abbrev first_fd : List Cmd → Option ℕ
first_fd [] = none
first_fd (c ∷ q) = some c.fd

received-wrote_line :
    (fd j : ℕ) (r : Text) (w : World)
    → w.writes ≡ []
    → received j (send_response fd r w).1.trace ≡ received j w.trace ++ line_if (fd == j) r
unfolding received
received-wrote_line fd j r w e = rw (send_response_whole fd r w e) (
    ground (
      arith,
      received-append j w.trace (wrote fd r ∷ wrote fd (b'\n' ∷ []) ∷ []),
      append-nil (received j w.trace),
    ))

-- One client gets the answer or the notice, never both.
once :
    (k : Kind) (fd j : ℕ) (found : Option Client) (r out : Text)
    → ((c : Client) → found ≡ some c → c.fd ≡ j)
    → (out ++ line_if (fd == j) r) ++ line_if (is_addressee (listens_to k) (some fd) found) r
      ≡ out ++ line_if (is_receiver k (some fd) found j) r
once k fd j none r out h = ground (arith, append-nil (out ++ line_if (fd == j) r))
once k fd j (some c) r out h =
    ground (arith, h c refl, append-nil (out ++ line_if (fd == j) r), append-nil out)

deliver :
    (line response : Text) (q : List Cmd) (cs : List Client) (w : World) (j : ℕ)
    → w.writes ≡ []
    → IsDistinct cs
    → let (fd, w') = answer_first q response w in
      received j (notify_listeners line fd response cs w').trace
      ≡ received j w.trace
        ++ line_if (is_receiver (kind_of line) (first_fd q) (client_find cs j) j) response
unfolding answer_first
deliver line response [] cs w j e d =
    rw (notify_listeners_kind line none response cs w)
      (sends_kind_delivers (kind_of line) none response cs w j e d)
deliver line response (c ∷ q) cs w j e d =
    let w' = (send_response c.fd response w).1 in
    let e' : w'.writes ≡ [] =
      ap (λ (r : ℤ × World). r.1.writes) (send_response_whole c.fd response w e) ∙ e in
    rw (notify_listeners_kind line (some c.fd) response cs w') (
      sends_kind_delivers (kind_of line) (some c.fd) response cs w' j e' d
      ∙ ap
          (λ t.
            t
            ++ line_if (is_addressee (listens_to (kind_of line)) (some c.fd) (client_find cs j))
                response)
          (received-wrote_line c.fd j response w e)
      ∙ once (kind_of line) c.fd j (client_find cs j) response (received j w.trace)
          (client_find-fd cs j))

-- The response to a line of the firmware.
abbrev pub response_to : Devices → Text → Shared → Text
response_to opt line s =
    (translate opt line (log_event notice "firmware: %s" (str line ∷ []) s.world)).0

-- Where the kernel takes every write whole and the clients have different descriptors, a line of
-- the firmware is delivered, with its line feed, exactly once to the client of the first command
-- and to every client that listens to lines of its kind, and to no other descriptor.
pub firmware_line_delivers :
    (opt : Devices) (line : Text) (s : Shared) (j : ℕ)
    → s.world.writes ≡ []
    → IsDistinct s.client_lst
    → received j (firmware_line opt line s).world.trace
      ≡ received j s.world.trace
        ++ (if is_receiver (kind_of line) (first_fd s.cmd_q) (client_find s.client_lst j) j
            then response_to opt line s ++ (b'\n' ∷ [])
            else [])
unfolding firmware_line
firmware_line_delivers opt line s j e d =
    let w0 = log_event notice "firmware: %s" (str line ∷ []) s.world in
    let quiet = translate-IsQuiet opt line w0 in
    let e0 : w0.writes ≡ [] = unfold log_event in e in
    deliver line (translate opt line w0).0 s.cmd_q s.client_lst (translate opt line w0).1 j
      (quiet.writes_same ∙ e0) d
    ∙ ap
        (λ t.
          t
          ++ line_if (is_receiver (kind_of line) (first_fd s.cmd_q) (client_find s.client_lst j) j)
              (response_to opt line s))
        (quiet.silent j ∙ received-logged j notice "firmware: %s" (str line ∷ []) s.world)

-- The sensor line of a known device is answered under the device's name, that of an unknown device
-- as it is.
translate_sensor :
    (opt : Devices) (k : ℕ) (rest : Text) (w : World)
    → (translate opt (codes "Sensor " ++ (k ∷ rest)) w).0
      ≡ (elim (key_value_storage_find_first_stringvalue opt.sampledevs_ (some (k ∷ []))) [
        | some name ↦ name ++ rest
        | none ↦ codes "Sensor " ++ (k ∷ rest)
      ])
unfolding translate translate_key strncmp_eq
translate_sensor opt k rest w =
    elim (Option-cases (key_value_storage_find_first_stringvalue opt.sampledevs_ (some (k ∷ [])))) [
      | inl n ↦ rw (n, translate_key)
      | inr (name, e) ↦ rw (e, translate_key)
    ]
