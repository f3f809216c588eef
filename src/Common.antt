-- ===== src/Common.antt =====
-- common/common.hpp: helpers of the server and the test client.
pub mod Hex
pub mod ReadKey
