-- ===== src/Peer/Watched.antt =====
-- The loss of a peer ends its session.
