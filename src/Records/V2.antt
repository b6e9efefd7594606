-- ===== src/Records/V2.antt =====
-- The adapter of objectsv2.AgentRecord (server/types/adapters/record_oasfv2.go). A message is the record of
-- what its getters return, and a nil pointer is `none`.
use agntcy_dir.Base.{ℕ, Option, none, some, List, [], map}
use agntcy_dir.Base.Text.{GoString}
use agntcy_dir.Base.Dict.{Dict}
use agntcy_dir.Records.View.{Skill, Locator, Extension, Signature, RecordData}

pub record SkillMessage : Type 0 where
  pub annotations : Dict GoString
  pub name : GoString
  pub id : ℕ

pub record LocatorMessage : Type 0 where
  pub annotations : Dict GoString
  pub type : GoString
  pub url : GoString
  pub size : ℕ
  pub digest : GoString

pub record ExtensionMessage : Type 0 where
  pub annotations : Dict GoString
  pub name : GoString
  pub version : GoString

pub record SignatureMessage : Type 0 where
  pub annotations : Dict GoString
  pub signed_at : GoString
  pub algorithm : GoString
  pub signature : GoString
  pub certificate : GoString
  pub content_type : GoString
  pub content_bundle : GoString

pub record AgentRecord : Type 0 where
  pub annotations : Dict GoString
  pub schema_version : GoString
  pub name : GoString
  pub version : GoString
  pub description : GoString
  pub authors : List GoString
  pub created_at : GoString
  pub skills : List (Option SkillMessage)
  pub locators : List (Option LocatorMessage)
  pub extensions : List (Option ExtensionMessage)
  pub signature : Option SignatureMessage
  pub previous_agent_record_cid : GoString

-- V2SkillAdapter
unfoldable pub adapt_skill : Option SkillMessage → Skill
adapt_skill none = record { annotations = []; name = []; id = 0 }
adapt_skill (some s) = record { annotations = s.annotations; name = s.name; id = s.id }

-- V2LocatorAdapter
unfoldable pub adapt_locator : Option LocatorMessage → Locator
adapt_locator none = record { annotations = []; type = []; url = []; size = 0; digest = [] }
adapt_locator (some l) = record {
  annotations = l.annotations;
  type = l.type;
  url = l.url;
  size = l.size;
  digest = l.digest;
}

-- V2ExtensionAdapter, without GetData
unfoldable pub adapt_extension : Option ExtensionMessage → Extension
adapt_extension none = record { annotations = []; name = []; version = [] }
adapt_extension (some e) = record {
  annotations = e.annotations;
  name = e.name;
  version = e.version;
}

-- V2SignatureAdapter; GetSignature of the data makes one only where the message is there.
unfoldable pub adapt_signature : Option SignatureMessage → Option Signature
adapt_signature none = none
adapt_signature (some s) = some (record {
  annotations = s.annotations;
  signed_at = s.signed_at;
  algorithm = s.algorithm;
  signature = s.signature;
  certificate = s.certificate;
  content_type = s.content_type;
  content_bundle = s.content_bundle;
})

-- V2DataAdapter
unfoldable pub adapt_data : Option AgentRecord → RecordData
unfolding adapt_skill adapt_locator adapt_extension adapt_signature
adapt_data none = record {
  annotations = [];
  schema_version = [];
  name = [];
  version = [];
  description = [];
  authors = [];
  created_at = [];
  skills = [];
  locators = [];
  extensions = [];
  signature = none;
  previous_record_cid = [];
}
adapt_data (some a) = record {
  annotations = a.annotations;
  schema_version = a.schema_version;
  name = a.name;
  version = a.version;
  description = a.description;
  authors = a.authors;
  created_at = a.created_at;
  skills = map adapt_skill a.skills;
  locators = map adapt_locator a.locators;
  extensions = map adapt_extension a.extensions;
  signature = adapt_signature a.signature;
  previous_record_cid = a.previous_agent_record_cid;
}
