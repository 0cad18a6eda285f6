-- ===== src/Contracts.antt =====
-- The provider-neutral contracts: contracts/events.py, contracts/audio.py, contracts/packets.py and
-- the settings of config.py that the modelled code reads. Times are milliseconds in ℕ, confidences
-- are in millionths, ids and texts are lists of code points, sequence ids are integers (-1 is the
-- system's).
mod Events
mod Audio
mod Configuration
pub use Events.*
pub use Audio.*
pub use Configuration.*
