-- ===== src/Tests.antt =====
-- Runs of the model at concrete inputs, with a small JSON library to run it on.
mod SampleJson
mod Settings
mod Frames
mod Genuine
mod Session
mod Upgrades
mod Links
mod Staging
mod Reading
mod Releases
mod Installs
mod Store
