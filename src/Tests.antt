-- ===== src/Tests.antt =====
-- Runs of the model on the inputs of the repository's own tests, and instances of the theorems.
mod Parser
mod Prompts
mod Recordings
mod Jobs
mod CommandLines
mod Machines
mod Endpoints
mod Execs
mod Codec
mod Frontends
mod Edits
mod Editors
