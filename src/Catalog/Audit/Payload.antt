-- ===== src/Catalog/Audit/Payload.antt =====
-- The text that `_audit_hash` hashes tells all of its seven fields.
use immutavault.Json.Print.{quote, dumps_sorted}
use immutavault.Json.Print.Quote.{quote_injective}
use immutavault.Catalog.Audit.{payload}
use Prim.Native.Char.{Char}
use immutavault.Prelude.{String, ◌≡◌}
use Prim.Native.String.{◌∷◌}

-- a text that begins with a fixed character
tail_eq : {c : Char} {s t : String} → c ∷ s ≡ c ∷ t → s ≡ t
tail_eq h = cc

-- one field of a printed object
field_eq :
    (k s t x y : String) → quote k (":" ∷ quote s x) ≡ quote k (":" ∷ quote t y) → (s ≡ t) × (x ≡ y)
field_eq k s t x y h =
    quote_injective s t x y (tail_eq (quote_injective k k (":" ∷ quote s x) (":" ∷ quote t y) h).1)

-- The canonical JSON text that an audit event's hash is taken of determines all seven fields.
pub payload_injective :
    (a b c d e f g a' b' c' d' e' f' g' : String)
    → payload a b c d e f g ≡ payload a' b' c' d' e' f' g'
    → (a ≡ a') × (b ≡ b') × (c ≡ c') × (d ≡ d') × (e ≡ e') × (f ≡ f') × (g ≡ g')
unfolding payload dumps_sorted
payload_injective a b c d e f g a' b' c' d' e' f' g' h =
    let action = field_eq "action" c c' _ _ (tail_eq h) in
    let actor = field_eq "actor" b b' _ _ (tail_eq action.1) in
    let created = field_eq "created_at" a a' _ _ (tail_eq actor.1) in
    let details = field_eq "details_json" f f' _ _ (tail_eq created.1) in
    let object = field_eq "object_id" e e' _ _ (tail_eq details.1) in
    let type = field_eq "object_type" d d' _ _ (tail_eq object.1) in
    let prev = field_eq "prev_hash" g g' _ _ (tail_eq type.1) in
    (created.0, actor.0, action.0, type.0, object.0, details.0, prev.0)
