-- ===== src/Base/Json.antt =====
-- `serde_json::Value`, whose source is not part of the repository: JSON values, an object as the
-- sequence of its fields. A key is its UTF-8 bytes, and a number its text.
use cow_rs.Base.Bytes.{Bytes}
use mathlib.Core.Bool.{Bool}
use mathlib.Core.Logic.{◌≢◌}

mutual
  pub data Value : Type 0 where
    null : Value
    bool : Bool → Value
    number : Bytes → Value
    string : Bytes → Value
    array : Items → Value
    object : Fields → Value

  pub data Items : Type 0 where
    nil : Items
    cons : Value → Items → Items

  pub data Fields : Type 0 where
    end : Fields
    field : Bytes → Value → Fields → Fields

-- The same value, but for the order of fields with different keys at every depth.
mutual
  pub data Same : Value → Value → Type 0 where
    same : (v : Value) → Same v v
    arrays : {xs ys : Items} → SameItems xs ys → Same (array xs) (array ys)
    objects : {fs gs : Fields} → SameFields fs gs → Same (object fs) (object gs)

  pub data SameItems : Items → Items → Type 0 where
    nils : SameItems nil nil
    conses :
        {v w : Value} {xs ys : Items}
        → Same v w
        → SameItems xs ys
        → SameItems (cons v xs) (cons w ys)

  pub data SameFields : Fields → Fields → Type 0 where
    ends : SameFields end end
    fields :
        (k : Bytes) {v w : Value} {fs gs : Fields}
        → Same v w
        → SameFields fs gs
        → SameFields (field k v fs) (field k w gs)
    swapped :
        (k j : Bytes) (v w : Value) (fs : Fields)
        → k ≢ j
        → SameFields (field k v (field j w fs)) (field j w (field k v fs))
    chained : {fs gs hs : Fields} → SameFields fs gs → SameFields gs hs → SameFields fs hs
