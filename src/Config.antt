-- ===== src/Config.antt =====
-- What the program is started with: the configuration file (common/config_ini), the command line
-- (common/arguments), the casts of texts (common/lexical_cast.hpp) and the trimming of them
-- (common/utility_trim.hpp).
pub mod Trim
pub mod Cast
pub mod Ini
pub mod Arguments
pub mod Start
mod Tests
