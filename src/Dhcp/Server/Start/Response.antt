-- ===== src/Dhcp/Server/Start/Response.antt =====
-- From the text of a configuration file and the bytes of a request to the bytes of the response.
use bootpd.Common.{
  ℕ, ◌≤◌, ◌≡◌, sym, ◌∙◌, subst, ◌&&◌, Bool, true, false, if◌then◌else◌, Bytes, codes, List, [], ◌∷◌,
  ◌++◌, length, take, All, All-append_left, All-append_right, Option, none, some, ok, find, text_eq,
}
use bootpd.Serdes.Writer.Laws.{AllBytes}
use bootpd.Network.{Address, Arrival, everyone}
use bootpd.Network.Laws.{quiet}
use bootpd.Network.Inet.{Inet, v4_parse_address}
use bootpd.Config.Ini.{Accessor, sections, value}
use bootpd.Config.Ini.Lines.{
  Directive, header, entry, remark, empty_line, kv_text, print, IsDirective,
}
use bootpd.Config.Ini.File.{print_all, run, last_assigned, value-run}
use bootpd.Dhcp.Options.Table.{no_options-IsTable}
use bootpd.Dhcp.Packet.{DhcpPacket, dhcp_packet, hardware_address, message_type}
use bootpd.Dhcp.Server.{Clients, client_key, respond}
use bootpd.Dhcp.Server.Offer.{IsRequest}
use bootpd.Dhcp.Server.Answer.{Answers, respond-Answers}
use bootpd.Dhcp.Server.Start.{bind_address, new_params}
use bootpd.Dhcp.Server.Start.Sections.{Returns, client_key-lower}
use bootpd.Dhcp.Server.Start.Service.{
  construct, your_address_of, boot_file_name_of, construct-client, initialize_client-your_address,
  initialize_client-boot_file_name,
}
use bootpd.Dhcp.Server.Start.Reads.{IsText}
use bootpd.Dhcp.Server.Start.Params.{initialize_client-IsParams}

-- The value of an entry is part of its line.
entry_bytes : (key val note : Bytes) → AllBytes (print (entry key val note)) → AllBytes val
entry_bytes key val note h =
    let line = All-append_left _ (kv_text key val ++ codes " ") (codes "; " ++ note) h in
    let text = All-append_left _ (kv_text key val) (codes " ") line in
    let quoted = All-append_right _ key (codes " = \"" ++ (val ++ codes "\"")) text in
    All-append_left _ val (codes "\"")
      (All-append_right _ (codes " = \"") (val ++ codes "\"") quoted)

behind_line :
    (d : Directive) (ds : List Directive) → AllBytes (print_all (d ∷ ds)) → AllBytes (print_all ds)
behind_line d ds h = (All-append_right _ (print d) (10 ∷ print_all ds) h).1

-- What a file of bytes assigns is bytes.
last_assigned-IsText :
    (ds : List Directive) (section : Bytes) (index : Accessor) (found : Option Bytes)
    → AllBytes (print_all ds)
    → IsText found
    → IsText (last_assigned ds section index found)
last_assigned-IsText [] section index found h k = k
last_assigned-IsText (header name ∷ ds) section index found h k =
    last_assigned-IsText ds name index found (behind_line (header name) ds h) k
last_assigned-IsText (entry key val note ∷ ds) section index found h k =
    last_assigned-IsText ds section index _ (behind_line (entry key val note) ds h)
      (either (text_eq section index.section && text_eq key index.keyname))
  where
    either : (b : Bool) → IsText (if b then some val else found)
    either true =
        entry_bytes key val note
          (All-append_left _ (print (entry key val note)) (10 ∷ print_all ds) h)
    either false = k
last_assigned-IsText (remark note ∷ ds) section index found h k =
    last_assigned-IsText ds section index found (behind_line (remark note) ds h) k
last_assigned-IsText (empty_line ∷ ds) section index found h k =
    last_assigned-IsText ds section index found (behind_line empty_line ds h) k

assigned-IsText :
    (ds : List Directive) (index : Accessor)
    → AllBytes (print_all ds)
    → IsText (value index (run ds ([], [])).1)
unfolding value find
assigned-IsText ds index h =
    subst IsText (sym (value-run ds [] index [])) (last_assigned-IsText ds [] index none h tt)

module _ (inet : Inet) (string_size view_size : ℕ) where
  -- With a configuration file of bytes and well-formed lines, whose address to bind and parameters of
  -- each section can be read, and a sizeof of std::string of at most 64, the DHCP server is
  -- constructed; and for the bytes of a DHCPDISCOVER or DHCPREQUEST, whose hardware address fits its
  -- array and which asks for options with codes from 1 to 254 only, of a client whose section assigns
  -- an address and a boot file, it sends on a network that delivers exactly one datagram, a broadcast
  -- to the port the request came from. The datagram is read back as a packet with the transaction and
  -- the hardware address of the request, the address that the file assigns last to the client, a boot
  -- file name that begins with the boot file it assigns last, and message type DHCPOFFER or DHCPACK.
  pub construct-respond :
      (ds : List Directive) (key text file : Bytes) (a : ℕ) (address source : Address)
      (bits which : Bytes) (packet_v : DhcpPacket) (m t : ℕ) (recvs : List Arrival)
      (sent : List (Address × Bytes))
      → string_size ≤ 64
      → All IsDirective ds
      → AllBytes (print_all ds)
      → bind_address inet string_size view_size (run ds ([], [])).1 ≡ ok address
      → All (Returns inet string_size view_size (run ds ([], [])).1) (sections (run ds ([], [])).1)
      → last_assigned ds [] (your_address_of key) none ≡ some text
      → v4_parse_address inet text ≡ ok a
      → last_assigned ds [] (boot_file_name_of key) none ≡ some file
      → AllBytes bits
      → dhcp_packet bits ≡ ok packet_v
      → client_key packet_v ≡ ok key
      → packet_v.opcode ≡ 1
      → message_type packet_v ≡ ok (some m)
      → Answers m t
      → IsRequest packet_v which
      → (clients : Clients) × (r : DhcpPacket) × (reply : Bytes) × (construct inet string_size
            view_size
            (print_all ds)
          ≡ ok (address, clients))
        × (respond clients source bits (quiet recvs sent)
            ≡ (ok tt, quiet recvs (sent ++ (everyone source.port, reply) ∷ [])))
        × (dhcp_packet reply ≡ ok r)
        × (r.your_address ≡ a)
        × (take (length file) r.boot_file_name ≡ file)
        × (r.transaction_id ≡ packet_v.transaction_id)
        × (hardware_address r ≡ hardware_address packet_v)
        × (message_type r ≡ ok (some t))
  unfolding value find
  construct-respond ds key text file a address source bits which packet_v m t recvs sent small h hf
        b ret ya ea fa hb eb ek eo em ha k =
      let ini = (run ds ([], [])).1 in
      let (clients, p, started, place, made) =
        construct-client inet string_size view_size ds key (codes "v4_your_address") text address h
          b ret ya (client_key-lower packet_v key ek) in
      let fit =
        initialize_client-IsParams inet string_size view_size ini key new_params small
          no_options-IsTable
          (assigned-IsText ds (record { keyname = codes "server_host_name"; section = key }) hf)
          (assigned-IsText ds (boot_file_name_of key) hf) p made in
      let your =
        initialize_client-your_address inet string_size view_size ini key text a
          (value-run ds [] (your_address_of key) [] ∙ ya) ea p made in
      let boot =
        initialize_client-boot_file_name inet string_size view_size ini key file
          (value-run ds [] (boot_file_name_of key) [] ∙ fa) p made in
      let (r, reply, hr, back, answered) =
        respond-Answers clients source bits packet_v p which key m t recvs sent hb eb eo em ha k fit
          ek place in
      (
        clients,
        r,
        reply,
        started,
        answered,
        back,
        hr.your_address ∙ your,
        subst (λ f. take (length f) r.boot_file_name ≡ f) boot hr.boot_file_name,
        hr.transaction,
        hr.hardware,
        hr.type,
      )
