-- ===== src/Pb.antt =====
-- The messages of generated/hambone.pb.go.
use hambone.Base.{String, Option, List, Bool}
use hambone.Base.Int.{ℤ}

pub record DeploymentStatus : Type 0 where
  pub name : String
  pub desired : ℤ
  pub current : ℤ
  pub up_to_date : ℤ
  pub available : ℤ

-- `Status`, a `oneof` with one case.
pub data Status : Type 0 where
  deployment : DeploymentStatus → Status

pub record File : Type 0 where
  pub name : String
  pub directory : String
  pub contents : String

-- The message in the field `OldInstance`. Its own `OldInstance` is never read, and is left out.
pub record OldInstance : Type 0 where
  pub name : String
  pub kustomization_yaml : String
  pub statuses : List Status
  pub statuses_error_message : String
  pub files : List File

pub record Instance : Type 0 where
  pub name : String
  pub kustomization_yaml : String
  pub statuses : List Status
  pub statuses_error_message : String
  pub old_instance : Option OldInstance
  pub files : List File

abbrev pub InstanceList : Type 0
InstanceList = List Instance

pub record GetOptions : Type 0 where
  pub name : String
  pub start : ℤ
  pub stop : ℤ
  pub exclude_statuses : Bool
