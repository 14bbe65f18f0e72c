-- ===== src/Logger/Tests.antt =====
-- Two lines of the log.
use bootpd.Common.{codes, [], ◌∷◌, ◌≡◌, refl, ◌++◌, replicate}
use bootpd.Logger.{Sinks, warning, info, write_lines, sink_line}

abbrev no_lines : Sinks
no_lines = record { error_sink_s = []; info_sink_s = [] }

warning_line :
    (write_lines
      ((codes "now", warning, codes "low") ∷ (codes "now", info, codes "fine") ∷ [])
      no_lines).error_sink_s
    ≡ codes "now" ++ (replicate 27 0 ++ codes " WARNING low\n")
unfolding write_lines sink_line
warning_line = refl
