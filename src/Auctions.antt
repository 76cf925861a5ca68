-- ===== src/Auctions.antt =====
-- The functions of src/helpers.c that create, close, watch, leave and bid for auctions.
pub mod Find
pub mod Ids
pub mod Sound
pub mod Create
pub mod Close
pub mod Watch
pub mod Bid
