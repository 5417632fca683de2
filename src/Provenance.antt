-- ===== src/Provenance.antt =====
-- scripts/bridge/lib/build-provenance.ts: whether the artifact's bytecode is what the compiler made of
-- the sources on disk. The disk and `path` are arguments.
pub mod Names
pub mod Same
pub mod Check
pub mod CheckLaws
pub mod Built
pub mod Sources
pub mod TarballLaws
pub mod SourceLaws
mod Examples
use rome_solidity.Prelude.{ℕ, String, Bool, Option, List, Result}
use rome_solidity.Prelude.Json.{Json, Fields}

pub record BuildProvenanceInput : Type 0 where
  pub root : String
  pub artifacts_dir : String
  pub build_info_id : String
  pub input_source_name : String
  pub contract_name : String
  pub artifact_bytecode : String
  pub expected_solc_version : String
  pub expected_settings : Fields

pub data BuildProblem : Type 0 where
  not_plain_name : String → BuildProblem
  no_build_info : String → BuildProblem
  other_solc : Option Json → String → BuildProblem
  other_setting : String → BuildProblem
  other_package : String → String → String → Option Json → BuildProblem
  unknown_source : String → BuildProblem
  not_on_disk : String → BuildProblem
  differs : String → BuildProblem
  no_input_source : String → BuildProblem
  no_bytecode : String → BuildProblem
  other_bytecode : BuildProblem

pub record BuildProvenance : Type 0 where
  pub problems : List BuildProblem
  pub build_info_id : String
  pub solc_version : Option Json

-- `path.resolve` and `path.join` of two, `JSON.parse(readFileSync(f))` or nothing, and the files
pub record Disk : Type 0 where
  pub resolve : String → String → String
  pub join_path : String → String → String
  pub read_json : String → Option Json
  pub exists_sync : String → Bool
  pub read_file : String → Result String String
