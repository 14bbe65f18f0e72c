-- ===== src/Program.antt =====
-- bootpd/main.cpp: the checks on the configuration file, the two servers from their construction to
-- their destruction, and the exit code. The file system and what the sockets of the servers do at their
-- start, whether control-C comes, and which threads end where they are asked to stop, are parameters; the
-- log is left out.
pub mod Shutdown
mod Tests
use bootpd.Common.{
  ℕ, ◌+◌, ◌-◌, ◌^◌, ltb, not, if◌then◌else◌, Bool, true, false, ◌||◌, ◌==◌, Bytes, codes, List, [],
  ◌∷◌, ◌++◌, Result, ok, throw, terminated, fault, stuck, ◌>>=◌, runtime_error,
}
use bootpd.Network.{Address}
use bootpd.Network.Inet.{Inet}
use bootpd.Config.Arguments.{Arguments, arguments, value_or}
use bootpd.Config.Ini.{ConfigIni}
use bootpd.Config.Start.{configure}
use bootpd.Dhcp.Server.{Clients}
use bootpd.Dhcp.Server.Start.{initialize as initialize_dhcp}
use bootpd.Tftp.Server.Start.{initialize as initialize_tftp}

-- What the file system says of a path, or the error that it throws.
pub record FileStatus : Type 0 where
  pub exists : Result Bool
  pub is_regular_file : Result Bool
  pub file_size : Result ℕ
  pub contents : Bytes

-- The threads of the two servers.
pub data Thread : Type 0 where
  dhcp_incoming dhcp_outgoing tftp_incoming tftp_outgoing : Thread

-- `string_size` and `view_size` are as in the DHCP server, and the next two are what making, binding and
-- setting up the socket of each server at its address does. The last two say whether control-C comes,
-- and whether a thread ends some time after it is asked to stop.
pub record Machine : Type 0 where
  pub inet : Inet
  pub string_size : ℕ
  pub view_size : ℕ
  pub status : Bytes → FileStatus
  pub dhcp_socket : Address → Result (Unit {0})
  pub tftp_socket : Address → Result (Unit {0})
  pub control_c : Bool
  pub ends : Thread → Bool

pub record Servers : Type 0 where
  pub dhcp : Address × Clients
  pub tftp : Address × Bytes

-- What happens to the threads of the servers.
pub data Event : Type 0 where
  started asked joined : Thread → Event

abbrev number : Thread → ℕ
number dhcp_incoming = 0
number dhcp_outgoing = 1
number tftp_incoming = 2
number tftp_outgoing = 3

abbrev pub remove : Thread → List Thread → List Thread
remove t [] = []
remove t (u ∷ us) = if number t == number u then us else u ∷ remove t us

-- The threads that run behind what has happened, where the threads `ts` ran before it.
abbrev pub running : List Event → List Thread → List Thread
running [] ts = ts
running (started t ∷ es) ts = running es (ts ++ t ∷ [])
running (asked t ∷ es) ts = running es ts
running (joined t ∷ es) ts = running es (remove t ts)

abbrev member : Thread → List Thread → Bool
member t [] = false
member t (u ∷ us) = number t == number u || member t us

-- std::jthread::joinable: the object has a thread, which was not joined yet.
abbrev pub joinable : Thread → List Event → Bool
joinable t es = member t (running es [])

abbrev pub check_file : Bytes → FileStatus → Result (Unit {0})
check_file path s = do
  there ← s.exists
  if not there then throw (runtime_error (codes "Unable to find file : " ++ path)) else (do
    regular ← s.is_regular_file
    if not regular then throw (runtime_error (codes "Not a regular file : " ++ path)) else (do
      size ← s.file_size
      if ltb size 1 then throw (runtime_error (codes "File is empty : " ++ path)) else ok tt))

-- What is called behind what happened before.
abbrev pub and_after :
    Result (Unit {0}) × List Event
    → (List Event → Result (Unit {0}) × List Event)
    → Result (Unit {0}) × List Event
and_after (ok a, es) f = f es
and_after (throw x, es) f = (throw x, es)
and_after (terminated, es) f = (terminated, es)
and_after (fault, es) f = (fault, es)
and_after (stuck, es) f = (stuck, es)

-- The destructor, which runs where the block returns or throws, and what the block did if it ends.
abbrev pub leaving :
    (List Event → Result (Unit {0}) × List Event)
    → Result (Unit {0}) × List Event
    → Result (Unit {0}) × List Event
leaving cease (ok a, es) = cease es
leaving cease (throw x, es) = and_after (cease es) (λ fs. (throw x, fs))
leaving cease (terminated, es) = (terminated, es)
leaving cease (fault, es) = (fault, es)
leaving cease (stuck, es) = (stuck, es)

-- start of one server: its two threads run where its socket could be set up.
abbrev pub start : Thread → Thread → Result (Unit {0}) → List Event → Result (Unit {0}) × List Event
start incoming outgoing (ok a) es = (ok a, es ++ started incoming ∷ started outgoing ∷ [])
start incoming outgoing (throw x) es = (throw x, es)
start incoming outgoing terminated es = (terminated, es)
start incoming outgoing fault es = (fault, es)
start incoming outgoing stuck es = (stuck, es)

-- std::jthread::request_stop.
abbrev pub request_stop : Thread → List Event → List Event
request_stop t es = if joinable t es then es ++ asked t ∷ [] else es

-- std::jthread::join of a thread that ends, or does not.
abbrev pub join : Bool → Thread → List Event → Result (Unit {0}) × List Event
join true t es = (ok tt, es ++ joined t ∷ [])
join false t es = (stuck, es)

abbrev pub if_joinable :
    Bool
    → (List Event → Result (Unit {0}) × List Event)
    → List Event
    → Result (Unit {0}) × List Event
if_joinable true f es = f es
if_joinable false f es = (ok tt, es)

module _ (ends : Thread → Bool) where
  abbrev join_joinable : Thread → List Event → Result (Unit {0}) × List Event
  join_joinable t es = if_joinable (joinable t es) (join (ends t) t) es

  -- cease of the DHCP server: both requests, and then both joins.
  abbrev pub dhcp_cease : List Event → Result (Unit {0}) × List Event
  dhcp_cease es =
      and_after
        (join_joinable dhcp_incoming (request_stop dhcp_outgoing (request_stop dhcp_incoming es)))
        (join_joinable dhcp_outgoing)

  -- cease of the TFTP server, one thread behind the other.
  abbrev pub tftp_cease : List Event → Result (Unit {0}) × List Event
  tftp_cease es =
      and_after (join_joinable tftp_incoming (request_stop tftp_incoming es))
        (λ fs. join_joinable tftp_outgoing (request_stop tftp_outgoing fs))

-- The loop that waits for control-C.
abbrev pub wait : Bool → List Event → Result (Unit {0}) × List Event
wait true es = (ok tt, es)
wait false es = (stuck, es)

-- The two handlers: every exception ends in -1.
abbrev pub exit_code : Result (Unit {0}) × List Event → Result ℕ × List Event
exit_code (ok a, es) = (ok 0, es)
exit_code (throw x, es) = (ok (2 ^ 32 - 1), es)
exit_code (terminated, es) = (terminated, es)
exit_code (fault, es) = (fault, es)
exit_code (stuck, es) = (stuck, es)

module _ (machine : Machine) where
  -- Up to the construction of the servers.
  unfoldable pub read_config : List Bytes → Result ConfigIni
  read_config argv =
      let args = arguments argv in
      value_or (codes "-C") (codes "config.ini") args >>= λ config_path.
      check_file config_path (machine.status config_path) >>= λ checked.
      configure args (machine.status config_path).contents

  abbrev pub construct_tftp : ConfigIni → Result (Address × Bytes)
  construct_tftp cfg = initialize_tftp machine.inet cfg

  abbrev pub construct_dhcp : ConfigIni → Result (Address × Clients)
  construct_dhcp cfg = initialize_dhcp machine.inet machine.string_size machine.view_size cfg

  -- Both starts, the wait, and the destructor of the TFTP server behind them.
  abbrev pub with_tftp :
      Address × Clients → Result (Address × Bytes) → Result (Unit {0}) × List Event
  with_tftp dhcp (ok tftp) = leaving (tftp_cease machine.ends) (
      and_after
        (and_after (start dhcp_incoming dhcp_outgoing (machine.dhcp_socket (dhcp.0)) [])
          (start tftp_incoming tftp_outgoing (machine.tftp_socket (tftp.0))))
        (wait machine.control_c))
  with_tftp dhcp (throw x) = (throw x, [])
  with_tftp dhcp terminated = (terminated, [])
  with_tftp dhcp fault = (fault, [])
  with_tftp dhcp stuck = (stuck, [])

  -- The constructor of the DHCP server delegates to the one without a configuration, so that the
  -- destructor runs also where reading the configuration throws. That of the TFTP server does not.
  abbrev pub with_dhcp : ConfigIni → Result (Address × Clients) → Result (Unit {0}) × List Event
  with_dhcp cfg (ok dhcp) = leaving (dhcp_cease machine.ends) (with_tftp dhcp (construct_tftp cfg))
  with_dhcp cfg (throw x) = leaving (dhcp_cease machine.ends) (throw x, [])
  with_dhcp cfg terminated = (terminated, [])
  with_dhcp cfg fault = (fault, [])
  with_dhcp cfg stuck = (stuck, [])

  -- The block that is tried.
  abbrev pub with_config : Result ConfigIni → Result (Unit {0}) × List Event
  with_config (ok cfg) = with_dhcp cfg (construct_dhcp cfg)
  with_config (throw x) = (throw x, [])
  with_config terminated = (terminated, [])
  with_config fault = (fault, [])
  with_config stuck = (stuck, [])

  unfoldable pub main : List Bytes → Result ℕ × List Event
  main argv = exit_code (with_config (read_config argv))
