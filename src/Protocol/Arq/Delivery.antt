-- ===== src/Protocol/Arq/Delivery.antt =====
-- ArqLayer (src/protocol.cpp): in-order, exactly-once delivery over a link that loses frames.
pub mod Ends
pub mod Numbered
pub mod Prefix
pub mod Arrival
pub mod Exact
