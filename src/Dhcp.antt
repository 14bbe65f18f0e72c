-- ===== src/Dhcp.antt =====
-- The DHCP server: bootpd/dhcp_options_v4, dhcp_packet_v4 and dhcp_server_v4.
pub mod Options
pub mod Packet
pub mod Server
mod Tests
