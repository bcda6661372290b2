-- ===== src/Submit/Waiting.antt =====
-- A client that gives up waiting.
use qdmav.Request.{Request}
use qdmav.Descq.{Descq}
