-- ===== src/User.antt =====
-- The programs of user: the wrappers of the supervisor calls and the texts of libc.c, and the
-- functions that P0.c, P1.c and P2.c compute.
pub mod Libc
pub mod Messages
pub mod Text
pub mod Programs
pub mod Primes
pub mod Divisors
pub mod Decimal
mod Tests
