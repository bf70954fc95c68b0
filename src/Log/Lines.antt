-- ===== src/Log/Lines.antt =====
-- powersensordaemon/log_targets.h: the text that a target writes for a message.
use jk16legacy.Prelude.{
  ℕ, suc, ◌+◌, ◌≡◌, refl, [], ◌∷◌, ◌++◌, arith, ◌==◌, if◌then◌else◌, Text, codes, cut_at,
}
use jk16legacy.World.{Prio, error, warning, notice, info, debug}
use jk16legacy.Log.{prio_number, log_prio_to_string}

-- What time and ctime return: a negative time, a null pointer, or a text.
pub data Clock : Type 0 where
  no_time no_format : Clock
  ctime_text : Text → Clock

get_time_formatted : Clock → Text
unfolding cut_at
get_time_formatted no_time = codes "<time read error>"
get_time_formatted no_format = codes "<time format error>"
get_time_formatted (ctime_text t) = cut_at t b'\n'

-- "%s %s: %s\n", which a file, stdout and stderr get.
pub stamped_line : Clock → Prio → Text → Text
unfolding get_time_formatted log_prio_to_string
stamped_line now prio msg =
    get_time_formatted now
    ++ (b' ' ∷ (log_prio_to_string prio ++ (b':' ∷ b' ' ∷ (msg ++ (b'\n' ∷ [])))))

-- What syslog gets: its priority, of a facility that is a multiple of 8, and the message.
syslog_priority : Prio → ℕ → ℕ
unfolding prio_number
syslog_priority prio facility = facility + (prio_number prio + 2)

-- How many line feeds a text has.
abbrev pub feeds : Text → ℕ
feeds [] = 0
feeds (c ∷ t) = if c == b'\n' then suc (feeds t) else feeds t

feeds-append : (s t : Text) → feeds (s ++ t) ≡ feeds s + feeds t
feeds-append [] t = omega arith
feeds-append (c ∷ s) t = ground (arith, feeds-append s t)

feeds-cut_at : (t : Text) → feeds (cut_at t b'\n') ≡ 0
unfolding cut_at
feeds-cut_at [] = refl
feeds-cut_at (c ∷ t) = ground (arith, feeds-cut_at t)

feeds-get_time_formatted : (now : Clock) → feeds (get_time_formatted now) ≡ 0
unfolding get_time_formatted
feeds-get_time_formatted no_time = refl
feeds-get_time_formatted no_format = refl
feeds-get_time_formatted (ctime_text t) = feeds-cut_at t

feeds-log_prio_to_string : (prio : Prio) → feeds (log_prio_to_string prio) ≡ 0
unfolding log_prio_to_string
feeds-log_prio_to_string error = refl
feeds-log_prio_to_string warning = refl
feeds-log_prio_to_string notice = refl
feeds-log_prio_to_string info = refl
feeds-log_prio_to_string debug = refl

-- Whatever ctime gives, a message without a line feed becomes exactly one line of a log file.
stamped_line_lem :
    (now : Clock) (prio : Prio) (msg : Text) → feeds (stamped_line now prio msg) ≡ suc (feeds msg)
unfolding stamped_line
stamped_line_lem now prio msg =
    let a =
      feeds-append (get_time_formatted now)
        (b' ' ∷ (log_prio_to_string prio ++ (b':' ∷ b' ' ∷ (msg ++ (b'\n' ∷ []))))) in
    let b = feeds-append (log_prio_to_string prio) (b':' ∷ b' ' ∷ (msg ++ (b'\n' ∷ []))) in
    let c = feeds-append msg (b'\n' ∷ []) in
    omega (arith, a, b, c, feeds-get_time_formatted now, feeds-log_prio_to_string prio)
