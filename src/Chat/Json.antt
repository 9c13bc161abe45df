-- ===== src/Chat/Json.antt =====
-- JSON values, as `json.loads` gives them: objects keep their keys in order.
use root_agent.Common.{Bool, Option, Text}

mutual
  pub data Json : Type 0 where
    null : Json
    boolean : Bool → Json
    -- a number, by its text
    number : Text → Json
    str : Text → Json
    arr : Items → Json
    obj : Fields → Json

  pub data Items : Type 0 where
    nil : Items
    cons : Json → Items → Items

  pub data Fields : Type 0 where
    end : Fields
    field : Text → Json → Fields → Fields

-- The JSON library: `loads` fails on what is no JSON.
pub record JsonLibrary : Type 0 where
  pub loads : Text → Option Json
  pub dumps : Json → Text
