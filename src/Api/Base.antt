-- ===== src/Api/Base.antt =====
-- Scalars and the metadata that every resource carries. Only the fields of the Kubernetes types
-- that the program reads or writes are kept.
use opencoda.Prelude.{ℕ, ℤ, Text, Dict}

-- Nanoseconds since the zero time.Time; a time.Duration is a difference of two.
abbrev pub Time : Type 0
Time = ℤ

abbrev pub Duration : Type 0
Duration = ℤ

-- The bit pattern of a float64. Its arithmetic is the interface of module Floats.
abbrev pub Float64 : Type 0
Float64 = ℕ

pub record ObjectMeta : Type 0 where
  pub name : Text
  pub namespace : Text
  pub labels : Dict Text
  pub annotations : Dict Text
  pub creation_timestamp : Time

pub record Condition : Type 0 where
  pub kind : Text
  pub status : Text
  pub reason : Text
  pub message : Text
  pub last_transition_time : Time
