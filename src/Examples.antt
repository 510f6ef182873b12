-- ===== src/Examples.antt =====
-- Runs of the operations at concrete inputs.
mod Storage
mod Swapping
mod Machines
mod Copying
mod Mappings
mod Processes
mod Buffers
mod Descriptors
mod FileSystem
mod Programs
