-- ===== src/Mql/Common.antt =====
-- common/mql-cpp, namespace mql::common
pub mod AccountInfoDouble
pub mod AccountInfoString
pub mod AccountInfoInteger
pub mod AccountInfoDoubleMinimal
pub mod AccountInfoIntegerMinimal
pub mod AccountInfoMinimal
