-- ===== src/Tests.antt =====
-- Concrete runs of the program's parts, and the theorems applied to them.
mod Samples
mod Worlds
mod Terrains
mod Layouts
mod Starts
mod Texts
mod Messages
mod Words
mod Programs
