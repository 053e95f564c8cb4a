-- ===== src/Platform.antt =====
-- What audio/*.c and power/power.c use and do not define: the constants of the platform headers
-- (system/audio.h, secril-client.h, hardware/power.h), and the calls into tinyalsa, audio_route,
-- the RIL client, the property service and the kernel. A call is recorded in a log, newest first;
-- the environment answers it as any function of the log, so a theorem over every `Platform` holds
-- whatever the libraries do.
mod Aosp
pub use Aosp.{aosp}
mod Defs
pub mod Pcms
pub use Defs.*
