-- ===== src/Upstream.antt =====
-- What the scanner hands over: the fields and getters of its types that go/report.go and go/store.go
-- read, and the functions of its version libraries as a parameter. The types are not this
-- repository's code, and nothing is said here about how they are filled.
use osvpy.Prelude.{ℕ, ℤ, Bool, List, Option}
use osvpy.Text.{Text}
use osvpy.Maps.{Map}
use osvpy.Report.{Slice}

-- `timestamppb.Timestamp`: whether `CheckValid` accepts it, and its time in RFC 3339.
pub record Timestamp : Type 0 where
  pub is_valid : Bool
  pub formatted : Text

-- `structpb.Value`: a string, or any other kind.
pub data Value : Type 0 where
  string_value : Text → Value
  other_value : Value

-- `osvschema.Severity` and `Reference`, with the names of their enumerations.
pub record Severity : Type 0 where
  pub type : Text
  pub source : Text
  pub score : Text

pub record Reference : Type 0 where
  pub type : Text
  pub url : Text

pub data RangeType : Type 0 where
  range_ecosystem range_semver range_git range_other : RangeType

pub record Range : Type 0 where
  pub type : RangeType
  -- `GetFixed` of each event
  pub events : List Text

pub record Affected : Type 0 where
  pub ecosystem : Text
  pub name : Text
  pub severity : List Severity
  pub ecosystem_specific : Map Text (Option Value)
  pub ranges : List Range

pub record Vulnerability : Type 0 where
  pub id : Text
  pub aliases : Slice Text
  pub summary : Text
  pub modified : Option Timestamp
  pub published : Option Timestamp
  pub withdrawn : Option Timestamp
  pub severity : List Severity
  pub references : List Reference
  pub database_specific : Map Text (Option Value)
  pub affected : List Affected

-- The address of a vulnerability, which code compares, and what stands there.
pub record VulnerabilityPointer : Type 0 where
  pub address : ℕ
  pub value : Vulnerability

pub record Inventory : Type 0 where
  pub purl : Option Text
  pub signals : ℕ
  pub location : Text

pub record PackageInfo : Type 0 where
  pub name : Text
  pub version : Text
  pub ecosystem : Text
  pub commit : Text
  pub os_package_name : Text
  pub inventory : Option Inventory
  pub deprecated : Bool
  -- `ImageOrigin.Index`
  pub image_origin : Option ℤ

pub record Analysis : Type 0 where
  pub called : Bool
  pub unimportant : Bool

pub record GroupInfo : Type 0 where
  pub ids : Slice Text
  pub aliases : Slice Text
  pub max_severity : Text
  pub analysis : Map Text Analysis

pub record PackageVulns : Type 0 where
  pub info : PackageInfo
  pub dep_groups : Slice Text
  pub vulnerabilities : List (Option VulnerabilityPointer)
  pub groups : List GroupInfo
  pub licenses : List Text
  pub license_violations : List Text

pub record PackageSource : Type 0 where
  pub path : Text
  pub type : Text
  pub signals : ℕ
  pub packages : List PackageVulns

pub record ImageMetadata : Type 0 where
  pub os : Text
  -- `DiffID` of each layer
  pub layers : List Text

pub record VulnerabilityResults : Type 0 where
  pub metadata : Option ImageMetadata
  pub generic_findings : ℕ
  pub results : List PackageSource

-- The version systems of `semver`.
pub data System : Type 0 where
  pypi npm cargo nuget ruby_gems composer go default_system : System

-- The version libraries.
pub record Versions : Type 0 where
  -- `system.Parse(version)` returns no error.
  pub accepts : System → Text → Bool
  -- `semantic.Parse(version, ecosystem)` returns no error.
  pub parses : Text → Text → Bool
  -- `CompareStr(fix)` of that version: its order, or none for an error.
  pub compare : Text → Text → Text → Option ℤ
