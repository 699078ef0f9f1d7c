-- ===== src/Assembler.antt =====
-- assembler.py: the pages, the citation index and the snapshot of a generation. Bytes are a type of the
-- environment: what canonical.py and str.encode make, json.loads reads and SHA-256 hashes.
pub mod Markup
pub mod Pages
pub mod Escaped
pub mod Citation
pub mod Snapshot
pub mod Restored
mod Examples
use wiki_spike.Base.{String, Option}
use wiki_spike.Json.{Json}

-- canonical.canonical_bytes, json.loads, str.encode, hashing.sha256_hex and str.lower
pub record Encoding (B : Type 0) : Type 0 where
  pub canonical_bytes : Json → B
  pub loads : B → Option Json
  pub encode : String → B
  pub sha256_hex : B → String
  pub lower : String → String

module _ {B : Type 0} (encoding : Encoding B) where
  -- hashing.canonical_hash
  abbrev pub canonical_hash : Json → String
  canonical_hash value = encoding.sha256_hex (encoding.canonical_bytes value)
