-- ===== src/Throttling.antt =====
-- pkg/throttling: the anti-thrashing gate. The token bucket limits the applies of one resource, the
-- thrashing detector counts refusals in a row.
pub mod TokenBucket
pub mod ThrashingDetector
