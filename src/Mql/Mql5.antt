-- ===== src/Mql/Mql5.antt =====
-- common/mql-cpp, namespace mql::mql5
pub mod AccountInfoInteger
pub mod AccountInfoDouble
pub mod OrderInfoInteger
pub mod OrderInfoDouble
pub mod OrderInfoString
pub mod OrderInfo
pub mod PositionInfoInteger
pub mod PositionInfoDouble
pub mod PositionInfoString
pub mod PositionInfo
pub mod DealInfoInteger
pub mod DealInfoDouble
pub mod DealInfoString
pub mod DealInfo
