-- ===== src/Examples.antt =====
-- A small camera and a small stream, and the theorems at them.
pub mod Streams
pub mod Controls
pub mod Descriptors
pub mod Polling
pub mod Sessions
pub mod Frames
pub mod Settings
pub mod Starts
pub mod Searches
pub mod Statuses
pub mod Discoveries
pub mod Openings
pub mod Relays
pub mod Jpegs
pub mod Layouts
pub mod Diagnostics
