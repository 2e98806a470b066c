-- ===== src/Slp/RoundTrip.antt =====
-- What `slp_write` lays out is what `slp_read` accepts.
mod Layout
mod Reading
unfoldable pub use Layout.*
pub use Reading.*
