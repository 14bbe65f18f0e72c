-- ===== src/Config/Tests.antt =====
-- The theorems about the configuration at concrete texts.
use bootpd.Common.{
  ◌≡◌, refl, Bytes, codes, List, [], ◌∷◌, ◌++◌, All, some, ok, fault, arith, text_eq, true,
}
use bootpd.Config.Trim.{trim, trim_string}
use bootpd.Config.Trim.Laws.{IsBlank, Starts, Ends}
use bootpd.Config.Trim.Overloads.{trim-Ends}
use bootpd.Config.Cast.{lexical_cast_unsigned}
use bootpd.Config.Cast.Decimal.{lexical_cast-decimal}
use bootpd.Config.Ini.{ConfigIni, Accessor, config_ini, value}
use bootpd.Config.Ini.Lines.{Directive, header, entry, empty_line, IsKey, IsDirective, print}
use bootpd.Config.Ini.File.{print_all, config_ini-print_all}
use bootpd.Config.Ini.Errors.{no_value, config_ini-no_value}
use bootpd.Config.Arguments.{has, values, value_or, arguments, member}
use bootpd.Config.Arguments.Laws.{arguments-values_behind}
use bootpd.Config.Start.{configure, configure-overrides}

trim-Ends_example :
    ((front back : Bytes) × (codes " a b\t" ≡ front ++ (trim (codes " a b\t") ++ back))
      × All IsBlank front
      × All IsBlank back
      × Starts (trim (codes " a b\t"))
      × Ends (trim (codes " a b\t")))
    × (trim_string (codes " a b\t") ≡ trim (codes " a b\t"))
trim-Ends_example = trim-Ends (codes " a b\t")

-- A port above 65535 is cut to its low bits.
lexical_cast-decimal_example : lexical_cast_unsigned 32 16 (codes "70000") ≡ ok 4464
lexical_cast-decimal_example = lexical_cast-decimal 32 16 (codes "70000") (
  (
    (omega arith, omega arith),
    (
      (omega arith, omega arith),
      ((omega arith, omega arith), ((omega arith, omega arith), ((omega arith, omega arith), tt))),
    ),
  ),
  omega arith,
)

k-IsKey : IsKey (codes "k")
k-IsKey = ((omega arith, refl, refl), (refl, tt), (refl, tt), (refl, tt), (refl, refl))

abbrev client_file : List Directive
client_file =
    entry (codes "k") (codes "u") []
    ∷ empty_line
    ∷ header (codes "a")
    ∷ entry (codes "k") (codes "v w") (codes "n")
    ∷ []

client_file-IsDirective : All IsDirective client_file
client_file-IsDirective = (
  (k-IsKey, ((refl, tt), (refl, tt), (refl, tt)), tt),
  (
    tt,
    (
      ((refl, tt), (refl, tt), (refl, tt), (refl, tt)),
      (
        (
          k-IsKey,
          ((refl, (refl, (refl, tt))), (refl, (refl, (refl, tt))), (refl, (refl, (refl, tt)))),
          (refl, tt),
        ),
        tt,
      ),
    ),
  ),
)

abbrev of_client : Accessor
of_client = record { keyname = codes "k"; section = codes "a" }

abbrev of_server : Accessor
of_server = record { keyname = codes "k"; section = [] }

config_ini-print_all_example :
    (ini : ConfigIni) × (config_ini (print_all client_file) ≡ ok ini)
    × (value of_client ini ≡ some (codes "v w"))
unfolding text_eq
config_ini-print_all_example = config_ini-print_all client_file of_client client_file-IsDirective

config_ini-no_value_example :
    config_ini (print_all client_file ++ (no_value (codes "k") (codes " ") (codes "n") ++ 10 ∷ []))
    ≡ fault
config_ini-no_value_example =
    config_ini-no_value client_file (codes "k") (codes " ") (codes "n") [] client_file-IsDirective
      k-IsKey (refl, tt) (refl, (refl, tt))

abbrev command_line : List Bytes
command_line = codes "bootpd" ∷ codes "-O" ∷ print (entry (codes "k") (codes "z") []) ∷ []

arguments-values_behind_example :
    (has (codes "-O") (arguments command_line) ≡ true)
    × (values (codes "-O") (arguments command_line)
        ≡ ok (print (entry (codes "k") (codes "z") []) ∷ []))
    × (value_or (codes "-O") (codes "config.ini") (arguments command_line)
        ≡ ok (print (entry (codes "k") (codes "z") [])))
unfolding text_eq member
arguments-values_behind_example =
    arguments-values_behind command_line (codes "-O") (codes "config.ini")

configure-overrides_example :
    (ini : ConfigIni) × (configure (arguments command_line) (print_all client_file) ≡ ok ini)
    × (value of_server ini ≡ some (codes "z"))
unfolding text_eq member
configure-overrides_example =
    configure-overrides command_line client_file [] (entry (codes "k") (codes "z") []) of_server
      client_file-IsDirective ((k-IsKey, ((refl, tt), (refl, tt), (refl, tt)), tt), tt) refl refl
