-- ===== src/Log/HexDump.antt =====
-- powersensordaemon/log.c: log_print_hex_dump. The memory of its buffer msg behind the head of the
-- dump is a parameter: the buffer is static, and keeps what it held before.
use jk16legacy.Prelude.{
  ℕ, ◌+◌, ◌-◌, ◌*◌, ◌/◌, ◌%◌, ◌<◌, ◌≡◌, refl, ap, ◌∙◌, ◌≢◌, false, Option, none, some, List, [],
  ◌∷◌, ◌++◌, append-nil, arith, ltb, leb, ◌==◌, if◌then◌else◌, pos, length, drop, All, All-append,
  Text, codes, c_str, int_text, int_text-zeros,
}
use jk16legacy.World.{Prio}
use jk16legacy.Log.{prio_number}
use jk16legacy.Log.Output.{Output, log_targets_log, Log, msg_length_max}

-- The digit that %X prints.
unfoldable pub hex_digit : ℕ → ℕ
hex_digit n = if ltb n 10 then b'0' + n else b'A' + (n - 10)

-- snprintf(ptr, 3, "%02X ", byte): two digits have room, and a zero.
unfoldable pub hex_byte : ℕ → Text
unfolding hex_digit
hex_byte b = hex_digit (b / 16 % 16) ∷ hex_digit (b % 16) ∷ []

-- The loop over the bytes from number `i` on; `size` is MSG_LENGTH_MAX - offset, and `memory` what
-- stands at ptr.
unfoldable pub dump_bytes : ℕ → ℕ → List ℕ → List ℕ → List ℕ
unfolding hex_byte
dump_bytes size i [] memory = memory
dump_bytes size i (b ∷ bytes) memory =
    let rest = dump_bytes size (i + 1) bytes (drop 3 memory) in
    if leb size ((i + 1) * 3) then memory else hex_byte b ++ (0 ∷ rest)

-- "dump(%d): "
unfoldable pub dump_head : ℕ → Text
unfolding int_text
dump_head len = codes "dump(" ++ (int_text (pos len) ++ codes "): ")

-- The text of the dump, where the buffer holds `memory` behind the head and its zero.
unfoldable pub dump_text : List ℕ → List ℕ → Text
unfolding dump_head dump_bytes
dump_text bytes memory =
    let head = dump_head (length bytes) in
    c_str (head ++ dump_bytes (msg_length_max - length head) 0 bytes (0 ∷ memory))

-- A null pointer is `none`.
unfoldable pub log_print_hex_dump : Log → Prio → Option (List ℕ) → List ℕ → List Output
unfolding dump_text
log_print_hex_dump stdlog prio buf memory =
    if ltb stdlog.log_max_prio (prio_number prio)
    then []
    else log_targets_log stdlog.targets_ prio
        (elim buf [ none ↦ codes "(NULL)" | some bytes ↦ dump_text bytes memory ])

c_str-append : (s m : Text) → All (λ c. c ≢ 0) s → c_str (s ++ m) ≡ s ++ c_str m
unfolding c_str
c_str-append [] m h = refl
c_str-append (c ∷ s) m h =
    let nonzero = h.0 in
    let other : (c == 0) ≡ false = ground (arith, nonzero) in rw (other, c_str-append s m h.1) refl

hex_byte-zeros : (b : ℕ) → All (λ c. c ≢ 0) (hex_byte b)
unfolding hex_byte hex_digit
hex_byte-zeros b = ((λ e. ground (arith, e)), ((λ e. ground (arith, e)), tt))

dump_head-zeros : (len : ℕ) → All (λ c. c ≢ 0) (dump_head len)
unfolding dump_head
dump_head-zeros len =
    All-append (λ c. c ≢ 0) (codes "dump(") (int_text (pos len) ++ codes "): ")
      ((λ e. cc), ((λ e. cc), ((λ e. cc), ((λ e. cc), ((λ e. cc), tt)))))
      (All-append (λ c. c ≢ 0) (int_text (pos len)) (codes "): ") (int_text-zeros (pos len))
        ((λ e. cc), ((λ e. cc), ((λ e. cc), tt))))

-- A hex dump shows its length and its first byte, whatever the other bytes are: snprintf puts a zero
-- behind the two digits of a byte, and the digits of the next are written behind that zero. The
-- condition is that the head leaves room for more than three bytes in the buffer.
pub log_print_hex_dump_first_byte :
    (stdlog : Log) (prio : Prio) (b : ℕ) (bytes memory : List ℕ)
    → length (dump_head (length (b ∷ bytes))) + 3 < msg_length_max
    → log_print_hex_dump stdlog prio (some (b ∷ bytes)) memory ≡ (
        if ltb stdlog.log_max_prio (prio_number prio)
        then []
        else log_targets_log stdlog.targets_ prio (dump_head (length (b ∷ bytes)) ++ hex_byte b))
unfolding log_print_hex_dump dump_text dump_bytes c_str
log_print_hex_dump_first_byte stdlog prio b bytes memory n =
    let head = dump_head (length (b ∷ bytes)) in
    let size = msg_length_max - length head in
    let room : leb size ((0 + 1) * 3) ≡ false = ground (arith, n) in
    let rest = dump_bytes size 1 bytes (drop 3 (0 ∷ memory)) in
    let text : c_str (head ++ (hex_byte b ++ (0 ∷ rest))) ≡ head ++ hex_byte b =
      c_str-append head _ (dump_head-zeros (length (b ∷ bytes)))
      ∙ ap (λ x. head ++ x)
          (c_str-append (hex_byte b) (0 ∷ rest) (hex_byte-zeros b) ∙ append-nil (hex_byte b)) in
    rw (room, text) refl
