-- ===== src/Tests.antt =====
-- The theorems at concrete inputs.
mod Memory
mod Samples
mod Correlation
mod Detection
mod Delivery
mod Usage
mod Counters
mod Queue
mod Api
mod Cases
mod Startup
mod Web
mod More
