-- ===== src/Session.antt =====
-- src/core/session.cpp, `encode`, `decode`, `serialize_session` and `deserialize_session`: between the
-- application's state, the values of the session file and its text.
--
-- `encode` writes over the document that was read, so that fields that this version does not know stay.
pub mod Words
pub mod Fields
pub mod Encode
pub mod Decode
pub mod Lookup
pub mod Locations
pub mod Parents
pub mod Tabs
pub mod Panes
pub mod Forgotten
pub mod Groups
pub mod Placements
pub mod RoundTrip
pub mod Unknown
pub mod Writable
pub mod Written
pub mod Dumpable
pub mod Read
pub mod Storable
pub mod Fresh
pub mod Pinned
pub mod Ratios
pub mod Document
pub mod Stored
pub mod Samples
mod Tests
