-- ===== src/Dhcp/Server.antt =====
-- bootpd/dhcp_server_v4.cpp: the clients' parameters, the offer made of them, and the two threads that
-- receive requests and answer them. The queue between the threads is the list of what the first puts
-- in and the second takes out; the log is left out.
pub mod Offer
pub mod Answer
pub mod Queue
pub mod Start
use bootpd.Common.{
  ℕ, zero, suc, ◌+◌, ◌-◌, ◌/◌, ◌%◌, ◌^◌, [], ◌∷◌, ◌++◌, List, Bytes, codes, length, get_or, Bool,
  true, false, ◌&&◌, ltb, leb, ◌==◌, if◌then◌else◌, Option, none, some, Result, ok, throw,
  terminated, fault, stuck, Exception, runtime_error, Dictionary, find, stop_requested as stopped,
  ◌>>=◌ as bind_result,
}
use bootpd.Network.{
  Address, everyone, World, Io, and_then, ◌>>=◌, ◌>>◌, lift, stop_requested, recv, send,
}
use bootpd.Network.Mac.{mac_address_to_string}
use bootpd.Dhcp.Options.{DhcpOptions}
use bootpd.Dhcp.Packet.{
  get_transaction_id, get_seconds_elapsed, get_opcode, set_opcode, set_hardware_type,
  set_number_of_hops, set_flags, set_seconds_elapsed, set_transaction_id, set_client_address,
  set_your_address, set_server_address, set_gateway_address, DhcpPacket, empty_packet, dhcp_packet,
  serialize, hardware_address, set_hardware_address, set_boot_file_name, set_server_host_name,
  set_message_type, is_message_type, requested_parameters, assign_options, opcode_request,
  opcode_response, hardware_type_ethernet, flags_broadcast,
}

abbrev pub message_type_discover : ℕ
message_type_discover = 1

abbrev pub message_type_offer : ℕ
message_type_offer = 2

abbrev pub message_type_request : ℕ
message_type_request = 3

abbrev pub message_type_ack : ℕ
message_type_ack = 5

-- std::tolower of the C locale, and lowercase of common/utility_case.hpp.
abbrev pub to_lower : ℕ → ℕ
to_lower c = if leb 65 c && leb c 90 then c + 32 else c

unfoldable pub lowercase : Bytes → Bytes
lowercase [] = []
lowercase (c ∷ value) = to_lower c ∷ lowercase value

abbrev pub to_upper : ℕ → ℕ
to_upper c = if leb 97 c && leb c 122 then c - 32 else c

unfoldable pub uppercase : Bytes → Bytes
uppercase [] = []
uppercase (c ∷ value) = to_upper c ∷ uppercase value

-- offer_params.
pub record OfferParams : Type 0 where
  pub client_address : ℕ
  pub your_address : ℕ
  pub server_address : ℕ
  pub gateway_address : ℕ
  pub boot_file_name : Bytes
  pub server_host_name : Bytes
  pub dhcp_options : DhcpOptions

-- The options that every offer has, where the client has them.
abbrev pub offer_codes : Bytes
offer_codes = 54 ∷ 51 ∷ 58 ∷ 59 ∷ 7 ∷ 15 ∷ []

-- The setters in the middle of make_offer's chain, which cannot fail.
abbrev pub offer_fields : DhcpPacket → OfferParams → DhcpPacket → DhcpPacket
offer_fields source_v params_v p = set_gateway_address params_v.gateway_address (
    set_server_address params_v.server_address (
      set_your_address params_v.your_address (
        set_client_address params_v.client_address (
          set_transaction_id (get_transaction_id source_v) (
            set_seconds_elapsed (get_seconds_elapsed source_v)
              (set_flags flags_broadcast (set_number_of_hops 0 p)))))))

unfoldable pub make_offer : DhcpPacket → OfferParams → Result DhcpPacket
make_offer source_v params_v =
    let p = set_hardware_type hardware_type_ethernet (set_opcode opcode_response empty_packet) in
    bind_result (hardware_address source_v) λ address.
      bind_result (set_hardware_address address p) λ p₁.
        bind_result (set_boot_file_name params_v.boot_file_name (offer_fields source_v params_v p₁))
          λ p₂. bind_result (set_server_host_name params_v.server_host_name p₂) λ p₃.
            bind_result (requested_parameters source_v) λ which.
              bind_result (assign_options params_v.dhcp_options which p₃)
                λ p₄. assign_options params_v.dhcp_options offer_codes p₄

-- The key of a client in the map.
unfoldable pub client_key : DhcpPacket → Result Bytes
client_key packet_v =
    bind_result (hardware_address packet_v)
      λ address. bind_result (mac_address_to_string address) λ text. ok (lowercase text)

-- The offer for a packet, with its message type.
unfoldable pub make_response : DhcpPacket → ℕ → OfferParams → Result DhcpPacket
make_response packet_v msg_type offer_params_v =
    bind_result (make_offer packet_v offer_params_v) (set_message_type msg_type)

abbrev pub Clients : Type 0
Clients = Dictionary OfferParams

abbrev pub send_response : Address → DhcpPacket → ℕ → Bytes → Option OfferParams → Io (Unit {0})
send_response source packet_v msg_type key none =
    lift (throw (runtime_error (codes "No configuration found for client : " ++ key)))
send_response source packet_v msg_type key (some offer_params_v) = do
  offer_packet_v ← lift (make_response packet_v msg_type offer_params_v)
  send (serialize offer_packet_v) (everyone source.port)

unfoldable pub answer : Clients → Address → DhcpPacket → ℕ → Io (Unit {0})
answer clients source packet_v msg_type = do
  key ← lift (client_key packet_v)
  send_response source packet_v msg_type key (find key clients)

-- The body of the loop of thread_outgoing, behind the pop.
unfoldable pub respond : Clients → Address → Bytes → Io (Unit {0})
respond clients source packet_bits = do
  packet_v ← lift (dhcp_packet packet_bits)
  if get_opcode packet_v == opcode_request
      then (do
        discover ← lift (is_message_type message_type_discover packet_v)
        request ← lift (is_message_type message_type_request packet_v)
        if discover
            then answer clients source packet_v message_type_offer
            else if request
            then answer clients source packet_v message_type_ack
            else lift (ok tt))
      else lift (ok tt)

-- The handlers of the two loops, `true` for another round.
abbrev pub handled {ℓ} : {A : Type ℓ} → Result A × World → Result (Bool × Option A) × World
handled (ok a, w) = (ok (true, some a), w)
handled (throw (stopped message), w) = (ok (false, none), w)
handled (throw e, w) = (ok (true, none), w)
handled (terminated, w) = (terminated, w)
handled (fault, w) = (fault, w)
handled (stuck, w) = (stuck, w)

-- The loop over the packets that the queue will hand out. On an empty queue `pop` waits until a stop is
-- requested, and throws then.
unfoldable pub thread_outgoing : Clients → List (Address × Bytes) → Io (Unit {0})
thread_outgoing clients [] = do stop ← stop_requested; lift (ok tt)
thread_outgoing clients ((source, packet_bits) ∷ packets) = do
  stop ← stop_requested
  if stop then lift (ok tt) else (do
    (again, done) ← λ w. handled (respond clients source packet_bits w)
    if again then thread_outgoing clients packets else lift (ok tt))

abbrev pub push : List (Address × Bytes) → Option (Address × Bytes) → List (Address × Bytes)
push packets none = packets
push packets (some (source, packet)) =
    if ltb (length packet) 1 then packets else packets ++ (source, packet) ∷ []

-- The other loop: what it has pushed when it ends.
unfoldable pub thread_incoming : ℕ → List (Address × Bytes) → Io (List (Address × Bytes))
thread_incoming zero packets = lift stuck
thread_incoming (suc fuel) packets = do
  stop ← stop_requested
  if stop then lift (ok packets) else (do
    (again, received) ← λ w. handled (recv w)
    if again then thread_incoming fuel (push packets received) else lift (ok packets))
