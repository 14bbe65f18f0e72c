-- ===== src/Lib.antt =====
-- Verification library of bootpd, a boot server that answers DHCP requests and serves files by TFTP.
--
-- The program. bootpd/main.cpp starts two servers. The DHCP server (bootpd/dhcp_server_v4) has a thread
-- that receives packets into a queue and a thread that answers them: a packet is parsed
-- (bootpd/dhcp_packet_v4, bootpd/dhcp_options_v4), its hardware address looked up among the configured
-- clients, and an offer or an acknowledgement is broadcast. The TFTP server (bootpd/tftp_server_v4)
-- starts a session (bootpd/tftp_session_v4) for each request, a thread that negotiates options and sends
-- a file in blocks (bootpd/tftp_reader) as packets (bootpd/tftp_packet). Both read and write packets by
-- the cursors of common/serdes.hpp, and talk to the network through common/socket_udp and
-- common/socket_api.
--
-- The modules.
--   Common: shared names and lemmas. Outcome has the results of code that can throw: ok, throw with the
--     exception, terminated (std::terminate), fault (undefined behaviour) and stuck (a loop that ran out
--     of fuel, or a call that never returns). Text has strings as lists of codes and the dictionaries, Number std::stoull and
--     its kin.
--   Serdes: common/serdes.hpp and common/byte_order.hpp. ByteOrder has to_wire and from_wire, which is
--     what operator () does to an integer; Reader and Writer have the cursors with the names of the
--     source, a read of one byte, two and four bytes as read_u8, read_u16 and read_u32.
--   Network: common/address_v4.hpp and the calls of common/socket_api.cpp as a monad over a World, which
--     holds scripts of what the calls of recvfrom, sendto and stop_requested do, and what was sent. Mac
--     has mac_address_to_string, Waiting the time-outs of a socket, Inet the parsing and printing of
--     addresses over a record of what inet_pton, inet_ntop and gethostbyname do, Socket who owns a socket of the system
--     (common/socket_udp.cpp), and Calls the code around recvfrom and sendto, which the scripts stand
--     for.
--   Tftp: Packet is bootpd/tftp_packet.cpp with the variant m_value as the type Payload; Reader is
--     bootpd/tftp_reader.cpp; Session is bootpd/tftp_session_v4.cpp, whose two io_thread functions are
--     io_thread_rrq and io_thread_wrq; Server is bootpd/tftp_server_v4.cpp, with visit_event and
--     visit_packet, and the steps of all threads on the queue and the list of sessions as Step.
--   Dhcp: Options is bootpd/dhcp_options_v4.hpp, the table m_values being a list of 254 slots; Packet is
--     bootpd/dhcp_packet_v4.cpp; Server is make_offer and the two threads of bootpd/dhcp_server_v4.cpp,
--     the body of the answering loop being respond, and
--     Server.Start its initialisation from the configuration (Tftp has one, too).
--   Queue: common/concurrent_queue.hpp, its consumer as a machine of five phases, a Step being what a
--     thread does between two points where another can come in; Pops has every pop as its caller sees it.
--   Config: Trim is common/utility_trim.hpp, Cast common/lexical_cast.hpp, Ini common/config_ini with its
--     regular expressions as functions, Arguments common/arguments, and Start the part of
--     bootpd/main.cpp that puts the configuration together.
--   Logger: common/logger.cpp, the streams being what was written to them.
--   Program: bootpd/main.cpp with the start and the end of both servers, as a list of what happens to
--     their threads: each is started, asked to stop, and joined, which never returns where it does not
--     end.
--   Checksum: the table and the loop of common/utility_crc32.cpp, and common/utility_cxhash.hpp.
--   The theorems stand in the child modules, and those named Tests apply them at concrete inputs.
--
-- Numbers are natural numbers; where a machine integer can wrap, the wrap-around is written out.
--
-- Loops and fuel. A loop over the bytes of a packet takes a byte in each round, so its fuel is the number
-- of bytes left and one. The loop that sends a file takes an arrival or a retry in each round, so its
-- fuel is ten for each arrival in the script, ten, and one (transfer_fuel). The loop of the receiving
-- thread has the number of rounds until a stop is requested as its fuel. Past the end of its scripts
-- the network is silent, delivers, and requests no stop: a call of recv times out there, and on a
-- socket whose time-out is 0 it never returns (Network.Waiting).
--
-- Outside: the operating system and the file system (the record Files, whose open_ gives the bytes at
-- an offset, and Machine of Program). The lines that the servers write to the log are left out. An
-- unordered_map is an association list, its order the order of iteration.
-- Not modelled: the casts to a floating-point type, and what is only calls of the system:
-- common/control_c and common/socket_option.
pub mod Common
pub mod Serdes
pub mod Tftp
pub mod Network
pub mod Dhcp
pub mod Queue
pub mod Config
pub mod Checksum
pub mod Program
pub mod Logger
