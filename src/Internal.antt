-- ===== src/Internal.antt =====
-- src/internal: the services that a cache stack is built of.
pub mod CircuitBreaker
pub mod Maintenance
pub mod Generation
pub mod Validation
pub mod TtlResolver
pub mod RuntimePolicy
pub mod NamespaceMetrics
pub mod Services
pub mod FencedWrite
pub mod LayerWriter
pub mod Reader
pub mod RateLimiter
pub mod InvalidationSupport
pub mod KeyDiscovery
