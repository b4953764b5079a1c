-- ===== src/Device.antt =====
-- The dictionaries of one saved device and its commands, as simple_network_dashboard/persistence.py
-- normalises them.
use simple_network_dashboard.Prelude.{ℕ, String, Bool, List}

pub record Command : Type 0 where
  pub name : String
  pub command : String
  pub sudo : Bool
  pub confirm : String

pub record Device : Type 0 where
  pub id : String
  pub name : String
  pub host : String
  pub username : String
  pub metrics_port : ℕ
  pub commands : List Command
