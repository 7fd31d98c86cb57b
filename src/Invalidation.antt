-- ===== src/Invalidation.antt =====
-- src/invalidation: the wildcard matcher and the tag index.
pub mod PatternMatcher
pub mod TagIndex
pub mod RedisTagIndex
