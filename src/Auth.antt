-- ===== src/Auth.antt =====
-- internal/api/auth.go: sessions and the limiter of the web login. Every method runs under the mutex
-- of its store. Time is in nanoseconds from Go's zero time, and each method is given its
-- `time.Now()`; none of the times wraps around.
pub mod Sessions
pub mod Limiter
