-- ===== src/Mql/Enums.antt =====
-- common/mql-cpp/enums.hpp: one module for each enumeration.
pub mod AccountTradeMode
pub mod AccountStopOutMode
pub mod AccountMarginMode
pub mod OrderType
pub mod OrderState
pub mod OrderTypeFilling
pub mod OrderTypeTime
pub mod OrderReason
pub mod PositionType
pub mod PositionReason
pub mod DealType
pub mod DealEntry
pub mod DealReason
