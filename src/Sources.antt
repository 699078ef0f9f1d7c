-- ===== src/Sources.antt =====
-- cas.py and ingest.py: the content of sources, and how it becomes claims. Bytes are texts; SHA-256, the
-- two codecs and the normal form NFC are parameters.
pub mod Store
pub mod Ingest
mod Examples
