-- ===== src/Program/Tests.antt =====
-- The theorem about the end of the program on a file that holds one remark.
use bootpd.Common.{ℕ, true, Bytes, codes, List, [], ◌∷◌, length, none, some, Result, ok, ◌≡◌, refl}
use bootpd.Network.Inet.{Inet, unresolved}
use bootpd.Program.{Machine}

abbrev machine : Machine
machine = record {
  inet = record {
    inet_pton = λ t. some (length t);
    inet_ntop = λ n. some (codes "here");
    gethostbyname = λ t. unresolved;
    last_error = [];
    long_bits = 32;
  };
  string_size = 32;
  view_size = 16;
  status = λ path. record {
    exists = ok true;
    is_regular_file = ok true;
    file_size = ok 7;
    contents = codes "; empty";
  };
  dhcp_socket = λ a. ok tt;
  tftp_socket = λ a. ok tt;
  control_c = true;
  ends = λ t. true;
}
