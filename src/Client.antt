-- ===== src/Client.antt =====
-- The web client (client/src): what a participant's browser keeps of a meeting. Rendering is not
-- modelled.
pub mod Recovery
pub mod Remote
pub mod Controls
pub mod Signal
pub mod Stage
pub mod Reactions
pub mod Log
pub mod Labels
pub mod Lobby
