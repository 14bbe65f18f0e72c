-- ===== src/Dhcp/Server/Start/Service.antt =====
-- From the text of a configuration file to the addresses that clients get.
use bootpd.Common.{
  ok-injective, Ensures, Ensures-bind, Ensures-past, Ensures-ok, ℕ, ◌≡◌, refl, sym, ap, ◌∙◌, subst,
  false, Bool-cases, inl, inr, Bytes, codes, List, [], ◌∷◌, append-nil, All, Option, none, some,
  Result, ok, ◌>>=◌, Dictionary, find, assign, text_eq, text_eq→eq, if◌then◌else◌, map,
}
use bootpd.Network.{Address}
use bootpd.Network.Inet.{Inet, v4_parse_address}
use bootpd.Config.Ini.{
  ConfigIni, Section, Accessor, config_ini, sections, insert, value, value_in, value_as, value_or,
  getlines, parse_lines,
}
use bootpd.Config.Ini.Lines.{Directive, header, entry, remark, empty_line, IsDirective}
use bootpd.Config.Ini.File.{print_all, run, last_assigned, parse-print_all, value-run}
use bootpd.Dhcp.Server.{OfferParams, Clients, lowercase}
use bootpd.Dhcp.Server.Start.{
  new_params, text_or, address_or, client_options, initialize_client, initialize, bind_address,
}
use bootpd.Dhcp.Server.Start.Sections.{
  text_eq-false_swap, Without, Distinct, Returns, Placed, initialize-Placed,
}

abbrev keys {ℓ} : {V : Type ℓ} → Dictionary V → List Bytes
keys m = map (λ entry. entry.0) m

module _ {ℓ} {V : Type ℓ} where
  Without-assign :
      (mac k : Bytes) (v : V) (m : Dictionary V)
      → text_eq k mac ≡ false
      → Without mac (keys m)
      → Without mac (keys (assign k v m))
  unfolding assign
  Without-assign mac k v [] h w = (h, tt)
  Without-assign mac k v ((j, x) ∷ m) h w = elim (Bool-cases (text_eq j k)) [
    | inl e ↦ rw e w
    | inr e ↦ rw e (w.0, Without-assign mac k v m h w.1)
  ]

  Distinct-assign :
      (k : Bytes) (v : V) (m : Dictionary V) → Distinct (keys m) → Distinct (keys (assign k v m))
  unfolding assign
  Distinct-assign k v [] d = (tt, tt)
  Distinct-assign k v ((j, x) ∷ m) d = elim (Bool-cases (text_eq j k)) [
    | inl e ↦ rw e d
    | inr e ↦
        rw e (Without-assign j k v m (text_eq-false_swap j k e) d.0, Distinct-assign k v m d.1)
  ]

  -- What holds of all keys holds of one that is found.
  All-find {κ} :
      (P : Bytes → Type κ) (k : Bytes) (v : V) (m : Dictionary V)
      → find k m ≡ some v
      → All P (keys m)
      → P k
  unfolding find
  All-find P k v [] h a = absurd (cc)
  All-find P k v ((j, x) ∷ m) h a = elim (Bool-cases (text_eq j k)) [
    | inl e ↦ subst P (text_eq→eq j k e) a.0
    | inr e ↦ All-find P k v m (subst (λ b. (if b then some x else find k m) ≡ some v) e h) a.1
  ]

run-Distinct :
    (ds : List Directive) (section : Bytes) (ini : ConfigIni)
    → Distinct (sections ini)
    → Distinct (sections (run ds (section, ini)).1)
unfolding insert
run-Distinct [] section ini d = d
run-Distinct (header name ∷ ds) section ini d = run-Distinct ds name ini d
run-Distinct (entry key val note ∷ ds) section ini d =
    run-Distinct ds section (insert section key val ini) (Distinct-assign section _ ini d)
run-Distinct (remark note ∷ ds) section ini d = run-Distinct ds section ini d
run-Distinct (empty_line ∷ ds) section ini d = run-Distinct ds section ini d

-- A section in which a key has a value is there.
found_section :
    (index : Accessor) (ini : ConfigIni) (text : Bytes)
    → value index ini ≡ some text
    → (entries : Section) × (find index.section ini ≡ some entries)
unfolding value
found_section index ini text h = go (find index.section ini) refl h
  where
    go :
        (o : Option Section)
        → find index.section ini ≡ o
        → value_in o index.keyname ≡ some text
        → (entries : Section) × (find index.section ini ≡ some entries)
    go none e h = absurd (cc)
    go (some entries) e h = (entries, e)

-- load_config and the constructor of the server, on the text of the configuration file.
unfoldable pub construct : Inet → ℕ → ℕ → Bytes → Result (Address × Clients)
construct inet string_size view_size file =
    config_ini file >>= initialize inet string_size view_size

abbrev pub your_address_of : Bytes → Accessor
your_address_of mac = record { keyname = codes "v4_your_address"; section = mac }

abbrev pub boot_file_name_of : Bytes → Accessor
boot_file_name_of mac = record { keyname = codes "boot_file_name"; section = mac }

module _ (inet : Inet) (string_size view_size : ℕ) where
  -- The address that a client gets is the one of its section.
  pub initialize_client-your_address :
      (ini : ConfigIni) (mac text : Bytes) (a : ℕ)
      → value (your_address_of mac) ini ≡ some text
      → v4_parse_address inet text ≡ ok a
      → Ensures
          (λ p. p.your_address ≡ a)
          (initialize_client inet string_size view_size ini mac new_params)
  unfolding initialize_client value_or value_as
  initialize_client-your_address ini mac text a v e =
      let from = address_or inet string_size view_size ini mac in
      let read : from (codes "v4_your_address") (codes "0.0.0.0") ≡ ok a = rw v e in
      Ensures-past Q (from (codes "v4_client_address") (codes "0.0.0.0")) _ λ client.
        Ensures-bind (λ x. x ≡ a) Q (from (codes "v4_your_address") (codes "0.0.0.0")) _
          (λ x e'. ok-injective (sym e' ∙ read))
          λ your h. Ensures-past Q (from (codes "v4_server_address") (codes "0.0.0.0")) _ λ server.
            Ensures-past Q (from (codes "v4_gateway_address") (codes "0.0.0.0")) _ λ gateway.
              Ensures-past Q (text_or ini mac (codes "server_host_name") []) _ λ host_name.
                Ensures-past Q (text_or ini mac (codes "boot_file_name") []) _ λ file_name.
                  Ensures-past Q
                    (client_options inet string_size view_size ini mac server host_name file_name
                      new_params.dhcp_options)
                    _ λ options. Ensures-ok Q _ h
    where
      Q : OfferParams → Type 0
      Q p = p.your_address ≡ a

  -- The file that a client is to boot is the one of its section.
  pub initialize_client-boot_file_name :
      (ini : ConfigIni) (mac file : Bytes)
      → value (boot_file_name_of mac) ini ≡ some file
      → Ensures
          (λ p. p.boot_file_name ≡ file)
          (initialize_client inet string_size view_size ini mac new_params)
  unfolding initialize_client value_or value_as
  initialize_client-boot_file_name ini mac file v =
      let from = address_or inet string_size view_size ini mac in
      let read : text_or ini mac (codes "boot_file_name") [] ≡ ok file = rw v refl in
      Ensures-past Q (from (codes "v4_client_address") (codes "0.0.0.0")) _ λ client.
        Ensures-past Q (from (codes "v4_your_address") (codes "0.0.0.0")) _ λ your.
          Ensures-past Q (from (codes "v4_server_address") (codes "0.0.0.0")) _ λ server.
            Ensures-past Q (from (codes "v4_gateway_address") (codes "0.0.0.0")) _ λ gateway.
              Ensures-past Q (text_or ini mac (codes "server_host_name") []) _ λ host_name.
                Ensures-bind (λ x. x ≡ file) Q (text_or ini mac (codes "boot_file_name") []) _
                  (λ x e'. ok-injective (sym e' ∙ read))
                  λ file_name h.
                    Ensures-past Q
                      (client_options inet string_size view_size ini mac server host_name file_name
                        new_params.dhcp_options)
                      _ λ options. Ensures-ok Q _ h
    where
      Q : OfferParams → Type 0
      Q p = p.boot_file_name ≡ file

  -- The server is constructed, and a client with a key in the file has the parameters of its section.
  pub construct-client :
      (ds : List Directive) (mac key text : Bytes) (address : Address)
      → All IsDirective ds
      → bind_address inet string_size view_size (run ds ([], [])).1 ≡ ok address
      → All (Returns inet string_size view_size (run ds ([], [])).1) (sections (run ds ([], [])).1)
      → last_assigned ds [] (record { keyname = key; section = mac }) none ≡ some text
      → lowercase mac ≡ mac
      → (clients : Clients) × (p : OfferParams) × (construct inet string_size view_size
            (print_all ds)
          ≡ ok (address, clients))
        × (find mac clients ≡ some p)
        × (initialize_client inet string_size view_size (run ds ([], [])).1 mac new_params ≡ ok p)
  unfolding construct value find getlines parse_lines
  construct-client ds mac key text address h b r v lower =
      let ini = (run ds ([], [])).1 in
      let index : Accessor = record { keyname = key; section = mac } in
      let (clients, started, placed) =
        initialize-Placed inet string_size view_size ini address b (run-Distinct ds [] [] tt) r in
      let assigned = value-run ds [] index [] ∙ v in
      let (entries, there) = found_section index ini text assigned in
      let (p, place, made) =
        All-find (Placed inet string_size view_size ini clients) mac entries ini there placed in
      let parsed = ap config_ini (sym (append-nil (print_all ds))) ∙ parse-print_all ds [] h in
      (
        clients,
        p,
        ap (λ m. m >>= initialize inet string_size view_size) parsed ∙ started,
        place,
        ap (λ m. initialize_client inet string_size view_size ini m new_params) (sym lower) ∙ made,
      )

  -- With well-formed lines in the file, whose address to bind and parameters of each section can be
  -- read, and with a client whose section is written in lower case, the DHCP server is constructed
  -- with that address, the map of clients has the client, and the address it is to get is the one that
  -- the file assigns last to v4_your_address in its section.
  pub construct-your_address :
      (ds : List Directive) (mac text : Bytes) (a : ℕ) (address : Address)
      → All IsDirective ds
      → bind_address inet string_size view_size (run ds ([], [])).1 ≡ ok address
      → All (Returns inet string_size view_size (run ds ([], [])).1) (sections (run ds ([], [])).1)
      → last_assigned ds [] (your_address_of mac) none ≡ some text
      → v4_parse_address inet text ≡ ok a
      → lowercase mac ≡ mac
      → (clients : Clients) × (p : OfferParams) × (construct inet string_size view_size
            (print_all ds)
          ≡ ok (address, clients))
        × (find mac clients ≡ some p)
        × (p.your_address ≡ a)
  unfolding value find
  construct-your_address ds mac text a address h b r v e lower =
      let (clients, p, started, place, made) =
        construct-client ds mac (codes "v4_your_address") text address h b r v lower in
      let assigned = value-run ds [] (your_address_of mac) [] ∙ v in
      (
        clients,
        p,
        started,
        place,
        initialize_client-your_address (run ds ([], [])).1 mac text a assigned e p made,
      )
