-- ===== src/Examples.antt =====
-- Tests on small inputs, and the theorems of the other modules at concrete inputs.
mod Cpus
mod Names
mod Workers
mod Invocations
mod Stacks
mod Starts
mod Functions
mod Slots
mod Clients
mod Servers
mod Logs
mod Managers
mod Owners
mod Systems
mod Tables
mod Wakeups
mod Crashes
