-- ===== src/Records/View.antt =====
-- The version-agnostic view of a record (server/types/record.go): an interface is the record of
-- what its methods return. GetData of an extension and the pure pass-through of its content are
-- left out.
use agntcy_dir.Base.{ℕ, Option, List}
use agntcy_dir.Base.Text.{GoString}
use agntcy_dir.Base.Dict.{Dict}

pub record Skill : Type 0 where
  pub annotations : Dict GoString
  pub name : GoString
  pub id : ℕ

pub record Locator : Type 0 where
  pub annotations : Dict GoString
  pub type : GoString
  pub url : GoString
  pub size : ℕ
  pub digest : GoString

pub record Extension : Type 0 where
  pub annotations : Dict GoString
  pub name : GoString
  pub version : GoString

pub record Signature : Type 0 where
  pub annotations : Dict GoString
  pub signed_at : GoString
  pub algorithm : GoString
  pub signature : GoString
  pub certificate : GoString
  pub content_type : GoString
  pub content_bundle : GoString

pub record RecordData : Type 0 where
  pub annotations : Dict GoString
  pub schema_version : GoString
  pub name : GoString
  pub version : GoString
  pub description : GoString
  pub authors : List GoString
  pub created_at : GoString
  pub skills : List Skill
  pub locators : List Locator
  pub extensions : List Extension
  pub signature : Option Signature
  pub previous_record_cid : GoString
