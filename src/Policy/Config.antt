-- ===== src/Policy/Config.antt =====
-- The configuration types of src/policy.rs.
use bpf_rbacd.Base.{String, Option, List, HashMap}

pub record SystemPolicy : Type 0 where
  pub commands : List String
  pub prog_types : HashMap (List String)
  pub map_types : HashMap (List String)

pub record Role : Type 0 where
  pub description : Option String
  pub groups : List String
  pub commands : List String
  pub prog_types : HashMap (List String)
  pub map_types : HashMap (List String)

pub record PolicyConfig : Type 0 where
  pub system_policy : Option SystemPolicy
  pub roles : HashMap Role

pub record Policy : Type 0 where
  pub config : PolicyConfig
