-- ===== src/Domain/Json.antt =====
-- `serde_json::Value`. A number is kept as its canonical text: the program only compares it.
pub mod Equality
use Prim.Native.String.{String}
use agent_loom.Base.{Bool}

mutual
  pub data Value : Type 0 where
    null : Value
    bool : Bool → Value
    number : String → Value
    string : String → Value
    array : Items → Value
    object : Fields → Value

  pub data Items : Type 0 where
    nil : Items
    item : Value → Items → Items

  pub data Fields : Type 0 where
    field : String → Value → Fields → Fields
    end : Fields
