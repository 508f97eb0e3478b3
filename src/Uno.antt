-- ===== src/Uno.antt =====
-- tcpcliserv/final_server.c: a server for rooms in which a card game is played.
pub mod Arrays
pub mod Cards
pub mod Shuffle
pub mod Turn
pub mod Game
pub mod Draw
pub mod Deal
pub mod Text
pub mod Play
pub mod Race
pub mod Rounds
pub mod Seated
pub mod Server
pub mod Rooms
pub mod Process
pub mod Lobby
