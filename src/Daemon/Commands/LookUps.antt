-- ===== src/Daemon/Commands/LookUps.antt =====
-- What a listen command changes, and what the look-ups of process_cmd answer.
use jk16legacy.Prelude.{
  ℕ, ◌≡◌, refl, true, Option, none, some, [], ◌∷◌, ◌++◌, append-nil, arith, ◌==◌, if◌then◌else◌,
  Text, codes, or_null, cut_at,
}
use jk16legacy.World.{warning, str, num, logged, World, received}
use jk16legacy.CommandQueue.{CmdId, power_on, power_off, sample, listen}
use jk16legacy.KeyValue.{KeyValueStorage, key_value_storage_find}
use jk16legacy.Daemon.Send.{is_sendable}
use jk16legacy.Daemon.Send.Response.{send_response_whole, received_line}
use jk16legacy.Daemon.Commands.{Devices, check_found, find_param}
use mathlib.Core.Option
use Prim.Native.String.{String}

-- Nothing fails.
pub record IsSmooth (w : World) : Type 0 where
  pub no_writes : w.writes ≡ []
  pub no_allocs : w.allocs ≡ []

-- What a look-up answers to the client.
abbrev pub refusal : String → Option Text → Text
refusal answer none = codes answer ++ (b'\n' ∷ [])
refusal answer (some v) = []

-- What a look-up that found `found` leaves.
pub record LookUp (answer : String) (fd : ℕ) (found : Option Text) (w : World)
    (r : Option Text × World) : Type 0 where
  pub value : r.0 ≡ found
  pub writes_same : r.1.writes ≡ w.writes
  pub allocs_same : r.1.allocs ≡ w.allocs
  pub answered :
      (j : ℕ)
      → received j r.1.trace ≡ received j w.trace ++ (if fd == j then refusal answer found else [])

check_found-LookUp :
    (answer warn : String) (fd : ℕ) (param found : Option Text) (w : World)
    → w.writes ≡ []
    → LookUp answer fd found w (check_found answer warn fd param found w)
unfolding check_found received
check_found-LookUp answer warn fd param none w e =
    rw (send_response_whole fd (codes answer) w e) (record {
      value = refl;
      writes_same = refl;
      allocs_same = refl;
      answered = λ j.
          received_line fd j (codes answer) w.trace
            (logged warning warn (str (or_null param) ∷ num fd ∷ [])) refl;
    })
check_found-LookUp answer warn fd param (some v) w e = record {
  value = refl;
  writes_same = refl;
  allocs_same = refl;
  answered = λ j. ground (arith, append-nil (received j w.trace));
}

abbrev pub storage_of : Devices → CmdId → KeyValueStorage
storage_of opt power_on = opt.powerids_
storage_of opt power_off = opt.powerids_
storage_of opt _ = opt.sampledevs_

abbrev pub answer_of : CmdId → String
answer_of power_on = "Error: invalid power id"
answer_of power_off = "Error: invalid power id"
answer_of _ = "Error: invalid sample device"

pub find_param-LookUp :
    (opt : Devices) (id : CmdId) (fd : ℕ) (param : Option Text) (w : World)
    → is_sendable id ≡ true
    → w.writes ≡ []
    → LookUp
        (answer_of id)
        fd
        (key_value_storage_find (storage_of opt id) param)
        w
        (find_param opt id fd param w)
unfolding find_param
find_param-LookUp opt power_on fd param w h e = check_found-LookUp _ _ fd param _ w e
find_param-LookUp opt power_off fd param w h e = check_found-LookUp _ _ fd param _ w e
find_param-LookUp opt sample fd param w h e = check_found-LookUp _ _ fd param _ w e
find_param-LookUp opt CmdId.log fd param w h e = cc
find_param-LookUp opt listen fd param w h e = cc

-- What a request listener is sent about a line.
abbrev pub request_notice : Text → Text
request_notice cmd = cut_at (codes "Request: " ++ cmd) b'\n'
