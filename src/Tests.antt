-- ===== src/Tests.antt =====
-- The theorems at concrete inputs.
mod Samples
mod Wire
mod Link
mod Messages
mod Palms
mod Sync
mod Walks
mod Files
mod Commands
mod Lists
mod Net
mod Remote
mod Data
