-- ===== src/Tests.antt =====
-- Concrete instances of what the model takes as a parameter, and the theorems at concrete inputs.
mod Packets
mod Exchanges
mod Threads
mod Deployment
mod Instances
mod Serialization
mod Sessions
mod Keys
mod Loads
mod Node
