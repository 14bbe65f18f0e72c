-- ===== src/Tftp.antt =====
-- The TFTP server: bootpd/tftp_packet, tftp_reader, tftp_session_v4 and tftp_server_v4.
pub mod Packet
pub mod Reader
pub mod Session
pub mod Server
mod Tests
