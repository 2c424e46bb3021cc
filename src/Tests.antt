-- ===== src/Tests.antt =====
-- Runs of the modelled code at concrete inputs.
mod Utf8
mod Mp3
mod Frames
mod Id3
mod Clock
mod Scanner
mod Reader
mod OldTag
