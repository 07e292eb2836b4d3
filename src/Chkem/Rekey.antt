-- ===== src/Chkem/Rekey.antt =====
-- A session's rekey with the hybrid KEM.
use quantum_go.Session.{Session}
