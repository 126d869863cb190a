-- ===== src/Examples.antt =====
-- Concrete runs of the theorems, with the data they share.
mod Times
mod Doors
mod Ranks
mod Frames
mod Cards
mod Readers
mod Sessions
mod Services
mod Pins
mod Boot
mod Answers
mod Clients
