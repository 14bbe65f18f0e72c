-- ===== src/Dhcp/Server/Start/Sections.antt =====
-- The sections of the configuration as entries of the map of clients.
use bootpd.Common.{
  bind-ok, ok-injective, text_eq_refl, ℕ, ◌≡◌, refl, sym, ap, ◌∙◌, true, false, Bytes, List, [],
  ◌∷◌, All, none, some, ok, find, assign, text_eq, text_eq→eq, find-assign_self, find-assign_ne,
  arith, Bool-cases, inl, inr,
}
use bootpd.Network.{Address}
use bootpd.Network.Inet.{Inet}
use bootpd.Config.Ini.{ConfigIni, sections}
use bootpd.Dhcp.Packet.{DhcpPacket, hardware_address}
use bootpd.Network.Mac.{mac_address_to_string}
use bootpd.Dhcp.Server.{OfferParams, Clients, to_lower, to_upper, lowercase, uppercase, client_key}
use bootpd.Dhcp.Server.Start.{
  new_params, or_new, bind_address, initialize_client, initialize_clients, initialize,
}

-- None of these sections has the name, and no two of them have the same.
abbrev pub Without : Bytes → List Bytes → Type 0
Without mac macs = All (λ other. text_eq other mac ≡ false) macs

abbrev pub Distinct : List Bytes → Type 0
Distinct [] = Unit {0}
Distinct (mac ∷ macs) = Without mac macs × Distinct macs

pub text_eq-false_swap : (a b : Bytes) → text_eq a b ≡ false → text_eq b a ≡ false
text_eq-false_swap a b h = elim (Bool-cases (text_eq b a)) [
  | inr e ↦ e
  | inl e ↦
      let same = text_eq→eq b a e in
      let refuted : text_eq a b ≡ true = rw same (text_eq_refl a) in cc
]

module _ (inet : Inet) (string_size view_size : ℕ) (cfg : ConfigIni) where
  find-initialize_clients :
      (macs : List Bytes) (mac : Bytes) (start clients : Clients)
      → Without mac macs
      → initialize_clients inet string_size view_size cfg macs start ≡ ok clients
      → find mac clients ≡ find mac start
  unfolding initialize_clients
  find-initialize_clients [] mac start clients w h = ap (find mac) (sym (ok-injective h))
  find-initialize_clients (other ∷ macs) mac start clients w h =
      let (p, e, rest) =
        bind-ok
          (initialize_client inet string_size view_size cfg (lowercase other)
            (or_new (find other start)))
          _ clients h in
      find-initialize_clients macs mac (assign other p start) clients w.1 rest
      ∙ find-assign_ne other mac p start w.0

  -- The section's client can be read, from the lower-case form of its name.
  abbrev pub Returns : Bytes → Type 0
  Returns mac =
      (p : OfferParams) × (initialize_client inet string_size view_size cfg (lowercase mac)
          new_params
        ≡ ok p)

  abbrev pub Placed : Clients → Bytes → Type 0
  Placed clients mac =
      (p : OfferParams) × (find mac clients ≡ some p)
      × (initialize_client inet string_size view_size cfg (lowercase mac) new_params ≡ ok p)

  still_absent :
      (macs : List Bytes) (mac : Bytes) (p : OfferParams) (start : Clients)
      → Without mac macs
      → All (λ m. find m start ≡ none) macs
      → All (λ m. find m (assign mac p start) ≡ none) macs
  still_absent [] mac p start w h = tt
  still_absent (m ∷ macs) mac p start w h = (
    find-assign_ne mac m p start (text_eq-false_swap m mac w.0) ∙ h.0,
    still_absent macs mac p start w.1 h.1,
  )

  initialize_clients-Placed :
      (macs : List Bytes) (start : Clients)
      → Distinct macs
      → All (λ m. find m start ≡ none) macs
      → All Returns macs
      → (clients : Clients) × (initialize_clients inet string_size view_size cfg macs start
          ≡ ok clients)
        × All (Placed clients) macs
  unfolding initialize_clients
  initialize_clients-Placed [] start d h r = (start, refl, tt)
  initialize_clients-Placed (mac ∷ macs) start d h ((p, e), r) =
      let absent = still_absent macs mac p start d.0 h.1 in
      let (clients, run, placed) =
        initialize_clients-Placed macs (assign mac p start) d.1 absent r in
      let kept = find-initialize_clients macs mac (assign mac p start) clients d.0 run in
      (clients, rw (h.0, e) run, ((p, kept ∙ find-assign_self mac p start, e), placed))

  none_absent : (macs : List Bytes) → All (λ m. find {V = OfferParams} m [] ≡ none) macs
  unfolding find
  none_absent [] = tt
  none_absent (m ∷ macs) = (refl, none_absent macs)

  -- Where the address to bind can be read, no two sections have the same name, and the parameters of
  -- each section can be read, the DHCP server starts with that address and a map of clients in which
  -- each section has, under its name as it is written, the parameters of the section named by its
  -- lower-case form.
  pub initialize-Placed :
      (address : Address)
      → bind_address inet string_size view_size cfg ≡ ok address
      → Distinct (sections cfg)
      → All Returns (sections cfg)
      → (clients : Clients) × (initialize inet string_size view_size cfg ≡ ok (address, clients))
        × All (Placed clients) (sections cfg)
  unfolding initialize
  initialize-Placed address b d r =
      let (clients, run, placed) =
        initialize_clients-Placed (sections cfg) [] d (none_absent (sections cfg)) r in
      (clients, rw (b, run) refl, placed)

to_lower_idem : (c : ℕ) → to_lower (to_lower c) ≡ to_lower c
to_lower_idem c = ground arith

lowercase_idem : (t : Bytes) → lowercase (lowercase t) ≡ lowercase t
unfolding lowercase
lowercase_idem [] = refl
lowercase_idem (c ∷ t) = rw (to_lower_idem c, lowercase_idem t) refl

to_lower-to_upper : (c : ℕ) → to_lower (to_upper c) ≡ to_lower c
to_lower-to_upper c = ground arith

lowercase-uppercase : (t : Bytes) → lowercase (uppercase t) ≡ lowercase t
unfolding lowercase uppercase
lowercase-uppercase [] = refl
lowercase-uppercase (c ∷ t) = rw (to_lower-to_upper c, lowercase-uppercase t) refl

pub client_key-lower :
    (packet_v : DhcpPacket) (key : Bytes) → client_key packet_v ≡ ok key → lowercase key ≡ key
unfolding client_key
client_key-lower packet_v key h =
    let (address, e₁, h₁) = bind-ok (hardware_address packet_v) _ key h in
    let (text, e₂, h₂) = bind-ok (mac_address_to_string address) _ key h₁ in
    ap lowercase (sym (ok-injective h₂)) ∙ lowercase_idem text ∙ ok-injective h₂

-- The key under which a packet looks its client up is never a name that is not its own lower-case
-- form: an entry of the map with such a name is found for no packet.
pub client_key-lowercase :
    (packet_v : DhcpPacket) (key mac : Bytes)
    → client_key packet_v ≡ ok key
    → text_eq (lowercase mac) mac ≡ false
    → text_eq mac key ≡ false
client_key-lowercase packet_v key mac h upper =
    let lower = client_key-lower packet_v key h in
    elim (Bool-cases (text_eq mac key)) [
      | inr e ↦ e
      | inl e ↦
          let same = text_eq→eq mac key e in
          let lower_mac : text_eq (lowercase mac) mac ≡ true =
            rw (same, lower) (text_eq_refl key) in
          cc
    ]
