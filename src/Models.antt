-- ===== src/Models.antt =====
-- The data of models.py and claims.py: the claim IR that the control plane stores and a generation
-- publishes. A dict of strings is the list of its items; identifiers and hashes are texts.
pub mod Manifest
mod Examples
use wiki_spike.Base.{String, List}

abbrev pub Scope : Type 0
Scope = List (String × String)

pub data Polarity : Type 0 where
  positive negative : Polarity

pub record ClaimIdentity : Type 0 where
  pub claim_id : String
  pub subject_id : String
  pub predicate_id : String
  pub obj : String
  pub polarity : Polarity
  pub scope : Scope

pub record Evidence : Type 0 where
  pub evidence_id : String
  pub source_object_hash : String
  pub representation_hash : String
  pub quote_hash : String
  pub locators : List Scope

pub record ClaimAssertion : Type 0 where
  pub assertion_id : String
  pub claim_id : String
  pub source_id : String
  pub evidence_ids : List String
  pub modality : String

pub record CompiledClaim : Type 0 where
  pub identity : ClaimIdentity
  pub assertion : ClaimAssertion
  pub evidence : Evidence
