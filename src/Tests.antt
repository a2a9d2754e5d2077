-- ===== src/Tests.antt =====
-- An instance of each theorem at concrete arguments, and the arguments.
mod World
mod Serving
mod Installing
mod Reading
mod Late
mod Disk
mod Programs
mod Tools
mod Interleaving
mod Unsigned
mod Progress
