-- ===== src/Hashing.antt =====
-- hashing.py and the root of models.py: `merkle_root` and `accepted_claim_set_root`. A digest and its
-- hexadecimal form are texts; SHA-256 is a parameter.
pub mod Root
mod Examples
use Prim.Native.String.{◌++◌ as append_text}
use wiki_spike.Base.{ℕ, zero, suc, String, Option, none, some, List, [], ◌∷◌, map, length}
use wiki_spike.Base.Sorting.{sorted}

abbrev pub leaf_prefix : String
leaf_prefix = "\0"

abbrev pub node_prefix : String
node_prefix = "\u{1}"

abbrev pub empty_text : String
empty_text = "wiki.merkle.empty.v1"

-- hashlib.sha256(...).digest(), and bytes.hex()
pub record Sha : Type 0 where
  pub digest : String → String
  pub hex : String → String

abbrev pub option_map : (String → String) → Option String → Option String
option_map f none = none
option_map f (some x) = some (f x)

module _ (sha : Sha) where
  abbrev pub sha256_hex : String → String
  sha256_hex text = sha.hex (sha.digest text)

  unfoldable pub leaf_digest : String → String
  leaf_digest leaf = sha.digest (append_text leaf_prefix leaf)

  unfoldable pub node_digest : String → String → String
  node_digest left right = sha.digest (append_text node_prefix (append_text left right))

  -- One round of the `while` loop: neighbours are joined, and the last one with itself where it is alone.
  unfoldable pub pair_up : List String → List String
  pair_up [] = []
  pair_up (x ∷ []) = node_digest x x ∷ []
  pair_up (x ∷ y ∷ rest) = node_digest x y ∷ pair_up rest

  -- `while len(nodes) > 1`, with fuel; `none` where it runs out
  unfoldable pub climb : ℕ → List String → Option String
  climb zero nodes = none
  climb (suc fuel) [] = none
  climb (suc fuel) (x ∷ []) = some x
  climb (suc fuel) (x ∷ y ∷ rest) = climb fuel (pair_up (x ∷ y ∷ rest))

  unfoldable pub merkle_root : List String → Option String
  merkle_root [] = some (sha256_hex empty_text)
  merkle_root (leaf ∷ leaves) =
      let nodes = sorted (map leaf_digest (leaf ∷ leaves)) in
      option_map sha.hex (climb (length nodes) nodes)

  -- `models.accepted_claim_set_root`; `canonical` gives the canonical bytes of a decision
  abbrev pub accepted_claim_set_root : {D : Type 0} → (D → String) → List D → Option String
  accepted_claim_set_root canonical decisions = merkle_root (map canonical decisions)
