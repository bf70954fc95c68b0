-- ===== src/Options/Print.antt =====
-- options.c: a command line that is written from settings is read back as these settings.
use jk16legacy.Prelude.{
  ℕ, ◌≡◌, refl, ap, false, some, List, [], ◌∷◌, ◌++◌, ◌==◌, ==_refl, All, Text, codes, strchr,
  cut_at,
}
use jk16legacy.World.{World}
use jk16legacy.Options.{
  Options, StringParam, username, groupname, chroot, write_pid, device, socket, powerid_file,
  sampledev_file, set_param,
}

-- What a command line may set.
pub data Setting : Type 0 where
  foreground : Setting
  text : StringParam → Text → Setting
  log_to : Text → Setting
  -- a device and the delay between its samples
  sample_every : Text → Text → Setting

abbrev long_name : StringParam → Text
long_name username = codes "--username"
long_name groupname = codes "--groupname"
long_name chroot = codes "--chroot"
long_name write_pid = codes "--write-pid"
long_name device = codes "--device"
long_name socket = codes "--socket"
long_name powerid_file = codes "--powerid-file"
long_name sampledev_file = codes "--sampledev-file"

abbrev words : Setting → List Text
words foreground = codes "--nodaemonize" ∷ []
words (text p v) = long_name p ∷ v ∷ []
words (log_to v) = codes "--log" ∷ v ∷ []
words (sample_every dev rate) = codes "--autosampledev" ∷ (dev ++ (b',' ∷ rate)) ∷ []

abbrev pub all_words : List Setting → List Text
all_words [] = []
all_words (s ∷ ss) = words s ++ all_words ss

abbrev apply : Setting → Options → Options
apply foreground o = record o { daemonize_ = false }
apply (text p v) o = set_param p (some v) o
apply (log_to v) o = record o { log_targets_ = o.log_targets_ ++ (v ∷ []) }
apply (sample_every dev rate) o = record o {
  autosampledevs_ = record {
    keys_ = o.autosampledevs_.keys_ ++ (dev ∷ []);
    values_ = o.autosampledevs_.values_ ++ (rate ∷ []);
  };
}

abbrev pub apply_all : List Setting → Options → Options
apply_all [] o = o
apply_all (s ∷ ss) o = apply_all ss (apply s o)

-- It does not begin with a dash.
abbrev IsValue : Text → Type 0
IsValue [] = Unit
IsValue (c ∷ s) = (c == b'-') ≡ false

abbrev pub IsNonempty : Text → Type 0
IsNonempty [] = ⊥
IsNonempty (c ∷ s) = Unit

abbrev pub HasNo : ℕ → Text → Type 0
HasNo c s = All (λ x. (x == c) ≡ false) s

-- The values that the command line can carry.
abbrev IsSetting : Setting → Type 0
IsSetting foreground = Unit
IsSetting (text p v) = IsValue v
IsSetting (log_to v) = IsValue v
IsSetting (sample_every dev rate) = IsNonempty dev × IsValue dev × HasNo b',' dev × IsNonempty rate

pub strchr-append : (c : ℕ) (s r : Text) → HasNo c s → strchr (s ++ (c ∷ r)) c ≡ some (c ∷ r)
unfolding strchr
strchr-append c [] r h = rw (==_refl c) refl
strchr-append c (x ∷ s) r h = rw (h.0) (strchr-append c s r h.1)

pub cut_at-append : (c : ℕ) (s r : Text) → HasNo c s → cut_at (s ++ (c ∷ r)) c ≡ s
unfolding cut_at
cut_at-append c [] r h = rw (==_refl c) refl
cut_at-append c (x ∷ s) r h = rw (h.0) (ap (λ t. x ∷ t) (cut_at-append c s r h.1))
