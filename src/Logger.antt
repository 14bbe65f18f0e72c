-- ===== src/Logger.antt =====
-- common/logger.hpp and common/logger.cpp: what a line of the log is, and which stream it goes to. The
-- formatting of the line's arguments and of the time are calls of the library.
mod Tests
use bootpd.Common.{
  ℕ, ◌-◌, ◌≡◌, refl, ap, ◌∙◌, append_assoc, append-nil, Bytes, codes, List, [], ◌∷◌, ◌++◌, length,
  replicate,
}

-- `unlisted` is any value of the type that has no name.
pub data FilterLevel : Type 0 where
  fatal error warning info debug trace unlisted : FilterLevel

abbrev pub filter_level_to_string : FilterLevel → Bytes
filter_level_to_string fatal = codes "FATAL  "
filter_level_to_string error = codes "ERROR  "
filter_level_to_string warning = codes "WARNING"
filter_level_to_string info = codes "INFO   "
filter_level_to_string debug = codes "DEBUG  "
filter_level_to_string trace = codes "TRACE  "
filter_level_to_string unlisted = codes "-------"

-- What strftime writes into thirty zeros; all thirty characters are returned.
abbrev pub datetime_as_string : Bytes → Bytes
datetime_as_string written = written ++ replicate (30 - length written) 0

pub record Sinks : Type 0 where
  pub error_sink_s : Bytes
  pub info_sink_s : Bytes

-- The sink that the constructor with two streams makes.
abbrev pub m_sink : FilterLevel → Bytes → Sinks → Sinks
m_sink fatal line s = record s { error_sink_s = s.error_sink_s ++ line }
m_sink error line s = record s { error_sink_s = s.error_sink_s ++ line }
m_sink warning line s = record s { error_sink_s = s.error_sink_s ++ line }
m_sink info line s = record s { info_sink_s = s.info_sink_s ++ line }
m_sink debug line s = record s { info_sink_s = s.info_sink_s ++ line }
m_sink trace line s = record s { info_sink_s = s.info_sink_s ++ line }
m_sink unlisted line s = s

abbrev pub line_text : Bytes → FilterLevel → Bytes → Bytes
line_text written level line =
    datetime_as_string written
    ++ (codes " " ++ (filter_level_to_string level ++ (codes " " ++ (line ++ codes "\n"))))

unfoldable pub sink_line : Bytes → FilterLevel → Bytes → Sinks → Sinks
sink_line written level line s = m_sink level (line_text written level line) s

-- write_line of what std::vformat made of the arguments, once for each entry: the time, the level and
-- the line.
unfoldable pub write_lines : List (Bytes × FilterLevel × Bytes) → Sinks → Sinks
write_lines [] s = s
write_lines ((written, level, line) ∷ entries) s =
    write_lines entries (sink_line written level line s)

-- What the entries of the three levels of errors come to, and those of the others.
abbrev error_text : FilterLevel → Bytes → Bytes
error_text fatal line = line
error_text error line = line
error_text warning line = line
error_text info line = []
error_text debug line = []
error_text trace line = []
error_text unlisted line = []

abbrev errors : List (Bytes × FilterLevel × Bytes) → Bytes
errors [] = []
errors ((written, level, line) ∷ entries) =
    error_text level (line_text written level line) ++ errors entries

sink_line-error :
    (written : Bytes) (level : FilterLevel) (line : Bytes) (s : Sinks)
    → (sink_line written level line s).error_sink_s
      ≡ s.error_sink_s ++ error_text level (line_text written level line)
unfolding sink_line
sink_line-error written fatal line s = refl
sink_line-error written error line s = refl
sink_line-error written warning line s = refl
sink_line-error written info line s = rw append-nil refl
sink_line-error written debug line s = rw append-nil refl
sink_line-error written trace line s = rw append-nil refl
sink_line-error written unlisted line s = rw append-nil refl

-- The stream of errors has exactly the lines of fatal errors, errors and warnings, in their order.
write_lines-errors :
    (entries : List (Bytes × FilterLevel × Bytes)) (s : Sinks)
    → (write_lines entries s).error_sink_s ≡ s.error_sink_s ++ errors entries
unfolding write_lines
write_lines-errors [] s = rw append-nil refl
write_lines-errors ((written, level, line) ∷ entries) s =
    write_lines-errors entries (sink_line written level line s)
    ∙ ap (λ t. t ++ errors entries) (sink_line-error written level line s)
    ∙ append_assoc s.error_sink_s (error_text level (line_text written level line)) (errors entries)
