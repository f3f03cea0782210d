-- ===== src/Comments.antt =====
-- Comments on a token: src/modules/comments.
pub mod Likes
pub mod Resolver
pub mod Threads
