-- ===== src/Canvas/Messages/Decoding.antt =====
-- `encoding/json` on trees: what `json.Unmarshal` makes of a tree for fields of the kinds that
-- canvaservice/handler/types.go has. A value of the wrong kind leaves the field as it was, with an error,
-- and the rest is decoded all the same; the first error is returned. Keys that no field has are
-- skipped. An element of a slice starts from its zero value.
use Prim.Native.Nat.{◌^◌}
use fawa.Common.{
  String, str_eq, Bool, List, [], ◌∷◌, Option, none, some, ltb, if◌then◌else◌, ℤ, pos, negsuc,
}

-- `decimal m x` is a number literal with a fraction or an exponent, worth `m` times ten to the `x`.
mutual
  pub data Value : Type 0 where
    null : Value
    boolean : Bool → Value
    number : ℤ → Value
    decimal : ℤ → ℤ → Value
    string : String → Value
    array : Values → Value
    object : Members → Value

  pub data Values : Type 0 where
    empty : Values
    item : Value → Values → Values

  pub data Members : Type 0 where
    no_member : Members
    member : String → Value → Members → Members

-- A syntax error, or a value that does not fit the Go type.
pub data Error : Type 0 where
  syntax : String → Error
  type_mismatch : Error

-- The fields of a struct by their tags, each with the way in which it takes a value.
abbrev pub Table : Type 0 → Type 0
Table S = List (String × (Value → S → S × Option Error))

unfoldable pub first_error : Option Error → Option Error → Option Error
first_error none later = later
first_error (some e) later = some e

-- Whether a number is one of `int` and `int64`, both of 64 bits.
unfoldable pub fits : ℤ → Bool
fits (pos n) = ltb n (2 ^ 63)
fits (negsuc n) = ltb n (2 ^ 63)

unfoldable pub decode_string : Value → String → String × Option Error
decode_string null old = (old, none)
decode_string (string s) old = (s, none)
decode_string _ old = (old, some type_mismatch)

unfoldable pub decode_int : Value → ℤ → ℤ × Option Error
unfolding fits
decode_int null old = (old, none)
decode_int (number z) old = if fits z then (z, none) else (old, some type_mismatch)
decode_int _ old = (old, some type_mismatch)

-- The field of a key, letter for letter or after folding.
unfoldable pub find_field {ℓ} :
    {F : Type ℓ} → (String → String) → String → List (String × F) → Option F
find_field same key [] = none
find_field same key ((tag, f) ∷ rest) =
    let later = find_field same key rest in if str_eq (same tag) (same key) then some f else later

unfoldable pub field_of {ℓ} :
    {F : Type ℓ} → (String → String) → String → List (String × F) → Option F
unfolding find_field
field_of fold key t = elim (find_field (λ k. k) key t) [
  | some f ↦ some f
  | none ↦ find_field fold key t
]

-- A value for the field that was found, if any.
unfoldable pub set_field :
    {S : Type 0} → Option (Value → S → S × Option Error) → Value → S → S × Option Error
set_field none v s = (s, none)
set_field (some f) v s = f v s

unfoldable pub then_item :
    {S : Type 0} → S × Option Error → List S × Option Error → List S × Option Error
unfolding first_error
then_item (s, err) (ss, later) = (s ∷ ss, first_error err later)

unfoldable pub at_pointer : {S : Type 0} → S × Option Error → Option S × Option Error
at_pointer (s, err) = (some s, err)

module _ (fold : String → String) where
  module _ {S : Type 0} (t : Table S) where
    unfoldable pub decode_members : Members → S → S × Option Error
    unfolding field_of first_error set_field
    decode_members no_member s = (s, none)
    decode_members (member key v rest) s =
        let (s', err) = set_field (field_of fold key t) v s in
        let (r, later) = decode_members rest s' in (r, first_error err later)

    unfoldable pub decode_struct : Value → S → S × Option Error
    unfolding decode_members
    decode_struct null s = (s, none)
    decode_struct (object members) s = decode_members members s
    decode_struct _ s = (s, some type_mismatch)

    module _ (start : S) where
      -- A pointer to a struct, allocated where it is nil.
      unfoldable pub decode_pointer : Value → Option S → Option S × Option Error
      unfolding decode_struct at_pointer
      decode_pointer null old = (none, none)
      decode_pointer v old = at_pointer (decode_struct v (elim old [ none ↦ start | some s ↦ s ]))

      unfoldable pub decode_items : Values → List S × Option Error
      unfolding decode_struct then_item
      decode_items empty = ([], none)
      decode_items (item v rest) =
          let (s, err) = decode_struct v start in
          let (ss, later) = decode_items rest in (s ∷ ss, first_error err later)

      unfoldable pub decode_slice : Value → Option (List S) → Option (List S) × Option Error
      unfolding decode_items
      decode_slice null old = (none, none)
      decode_slice (array items) old = let (ss, err) = decode_items items in (some ss, err)
      decode_slice _ old = (old, some type_mismatch)
