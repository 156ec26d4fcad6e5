-- ===== src/Feed/Jsonb.antt =====
-- services/feed/model.go `Scan` and `Value`: the blocks of a post in a JSONB column. encoding/json is a
-- parameter, on a type of bytes and texts.
use Prim.Native.String.{◌++◌ as append}
use feeds.Prelude.{
  ◌≡◌, ap, sym, ◌∙◌, String, Option, none, some, List, [], message, Result, ok, err,
}
use feeds.Feed.Model.{Block}

record BlocksJson (Text : Type 0) : Type 0 where
  marshal : List Block → Result Text
  unmarshal : Text → Result (List Block)
  literal : String → Text

-- What a driver gives to `Scan`.
data Src (Text : Type 0) : Type 0 where
  null : Src Text
  bytes : Text → Src Text
  string : Text → Src Text
  unsupported : String → Src Text

ok-injective {ℓ} : {A : Type ℓ} {a b : A} → ok a ≡ ok b → a ≡ b
ok-injective p = cc p

abbrev blocks_or_none : Option (List Block) → List Block
blocks_or_none none = []
blocks_or_none (some blocks) = blocks

module _ {Text : Type 0} (json : BlocksJson Text) where
  scan : Src Text → Result (List Block)
  scan null = ok []
  scan (bytes raw) = json.unmarshal raw
  scan (string raw) = json.unmarshal raw
  scan (unsupported type) = err (message (append "blocks: unsupported scan type " type))

  -- `Value`, where `none` is a nil slice.
  value : Option (List Block) → Result Text
  value none = ok (json.literal "[]")
  value (some blocks) = json.marshal blocks

  -- What `Value` writes to the column, `Scan` reads back, whether the driver gives it as bytes or as a
  -- text; a nil slice comes back as no blocks.
  scan-value :
      ((blocks : List Block) (raw : Text)
        → json.marshal blocks ≡ ok raw
        → json.unmarshal raw ≡ ok blocks)
      → json.unmarshal (json.literal "[]") ≡ ok []
      → (blocks : Option (List Block)) (raw : Text) → value blocks ≡ ok raw
      → (scan (bytes raw) ≡ ok (blocks_or_none blocks))
        × (scan (string raw) ≡ ok (blocks_or_none blocks))
  unfolding scan value
  scan-value law empty none raw h = (
    ap json.unmarshal (sym (ok-injective h)) ∙ empty,
    ap json.unmarshal (sym (ok-injective h)) ∙ empty,
  )
  scan-value law empty (some blocks) raw h = (law blocks raw h, law blocks raw h)
