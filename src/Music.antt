-- ===== src/Music.antt =====
-- The music player, xiaoai-agent/src/music.rs.
pub mod Service
pub mod Playlist
pub mod Interruption
