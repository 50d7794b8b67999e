-- ===== src/Tests.antt =====
-- Concrete runs of the modelled code: tests, and the theorems at inputs where their conditions hold.
mod Usb
mod Protocol
mod Mesh
mod Ble
mod Script
mod Sampling
mod Radio
mod Power
mod Topology
mod Receive
mod Transmit
mod Link
mod Openmanet
