-- ===== src/Console/Transparent.antt =====
-- The terminal of usocket.c loses nothing and adds nothing, while it is connected.
use jk16legacy.Prelude.{◌≡◌, Bool, true, false, ◌&&◌, not, List, [], ◌∷◌, ◌++◌, Text}
use jk16legacy.Console.{
  Typed, TermRound, Terminal, Session, connected, left_off, Keyboard, keys_wait, keys_over,
  keys_broken, key_text, key_end,
}

-- From `s` to `s'` the texts have been added, and whether standard input is read is `valid`.
pub record Adds (s s' : Terminal) (out typed : Text) (valid : Bool) : Type 0 where
  pub shows : s'.shown ≡ s.shown ++ out
  pub passes_on : s'.passed_on ≡ s.passed_on ++ typed
  pub valid_fd : s'.stdin_valid_fd ≡ valid

-- The same for the reads of standard input in a run, where they do not fail.
abbrev KeysAdd : List Typed → Terminal → Keyboard → Type 0
KeysAdd keys s (keys_wait s') =
    Adds s s' [] (key_text 1024 keys) s.stdin_valid_fd × (key_end keys ≡ false)
KeysAdd keys s (keys_over s') =
    Adds s s' [] (key_text 1024 keys) s.stdin_valid_fd × (key_end keys ≡ true)
KeysAdd keys s (keys_broken s') = Unit {0}

-- The same for a session that is still connected.
pub data SessionAdds (s : Terminal) (out typed : Text) (valid : Bool) : Session → Type 0 where
  still_connected :
      (s' : Terminal) → Adds s s' out typed valid → SessionAdds s out typed valid (connected s')
  has_left : (s' : Terminal) → SessionAdds s out typed valid (left_off s')

-- Whether standard input is read in a run, and whether it is read after it.
abbrev pub reads_now : Bool → TermRound → Bool
reads_now valid r = valid && r.stdin_ready

abbrev pub reads_after : Bool → TermRound → Bool
reads_after valid r = valid && not (reads_now valid r && key_end r.keys)

-- Over some runs.
abbrev pub stdin_open_after : Bool → List TermRound → Bool
stdin_open_after valid [] = valid
stdin_open_after valid (r ∷ rs) = stdin_open_after (reads_after valid r) rs
