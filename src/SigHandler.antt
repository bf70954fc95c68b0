-- ===== src/SigHandler.antt =====
-- powersensordaemon/sig_handler.c: the signals that wait in a pipe, as a set. The numbers are those
-- of <signal.h> on Linux. The pipe holds one set or none: a write to it, behind the read of what
-- it held, is taken to succeed. signal_init and signal_stop are in SigHandler.Setup.
pub mod Laws
pub mod Setup
use jk16legacy.Prelude.{
  ℕ, zero, suc, ◌+◌, ◌-◌, Bool, true, false, ◌||◌, Option, none, some, List, [], ◌∷◌, ◌==◌,
  if◌then◌else◌,
}
use jk16legacy.World.{warning, notice, num, World, log_event}
use jk16legacy.Options.{unknown}
use Prim.Native.String.{String}

abbrev pub SignalSet : Type 0
SignalSet = ℕ → Bool

abbrev pub sighup : ℕ
sighup = 1

abbrev pub sigint : ℕ
sigint = 2

abbrev pub sigquit : ℕ
sigquit = 3

abbrev pub sigusr1 : ℕ
sigusr1 = 10

abbrev pub sigusr2 : ℕ
sigusr2 = 12

abbrev pub sigterm : ℕ
sigterm = 15

abbrev nsig : ℕ
nsig = 65

pub sigaddset : SignalSet → ℕ → SignalSet
sigaddset pending sig s = s == sig || pending s

-- What a read of the pipe leaves in the set.
pub read_set : Option SignalSet → SignalSet
read_set none s = false
read_set (some pending) s = pending s

-- The handler of a signal: the pipe before and after it.
pub sig_handler : ℕ → Option SignalSet → Option SignalSet
unfolding sigaddset read_set
sig_handler sig pipe = some (sigaddset (read_set pipe) sig)

-- The switch of signal_handle: whether the daemon is to end, and the message.
pub handle_one : ℕ → World → Bool × World
unfolding log_event
handle_one sig w =
    if sig == sigint
    then (true, log_event notice "SIG-Int caught, exitting" [] w)
    else if sig == sigquit
    then (true, log_event notice "SIG-Quit caught, exitting" [] w)
    else if sig == sigterm
    then (true, log_event notice "SIG-Term caught, exitting" [] w)
    else if sig == sighup
    then (false, log_event notice "SIG-Hup caught" [] w)
    else if sig == sigusr1
    then (false, log_event notice "SIG-Usr1 caught" [] w)
    else if sig == sigusr2
    then (false, log_event notice "SIG-Usr2 caught" [] w)
    else (false, log_event warning "unknown signal %d caught, ignoring" (num sig ∷ []) w)

-- for(sig=1; sig < NSIG; ++sig) …, over the next signals from `sig` on.
pub signal_loop : ℕ → ℕ → SignalSet → Bool → World → Bool × World
unfolding handle_one
signal_loop zero sig pending return_value w = (return_value, w)
signal_loop (suc n) sig pending return_value w =
    let (ends, w') = handle_one sig w in
    signal_loop n (sig + 1) pending (if pending sig then return_value || ends else return_value)
      (if pending sig then w' else w)

-- The returned value, what is left in the pipe, and the world.
pub signal_handle : Option SignalSet → World → Bool × Option SignalSet × World
unfolding signal_loop read_set
signal_handle pipe w =
    let (return_value, w') = signal_loop (nsig - 1) 1 (read_set pipe) false w in
    (return_value, none, w')

-- The pipe after some signals have been handled, in order.
pub deliver : List ℕ → Option SignalSet → Option SignalSet
unfolding sig_handler
deliver [] pipe = pipe
deliver (sig ∷ sigs) pipe = deliver sigs (sig_handler sig pipe)
