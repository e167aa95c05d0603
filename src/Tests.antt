-- ===== src/Tests.antt =====
-- Examples: small runs of the modelled code, and the theorems at concrete inputs.
mod Small
mod Bucket
mod Intake
mod Server
mod Stores
mod UiCache
mod Sums
mod Together
mod Streams
mod Run
mod Download
mod Steps
mod Listing
