-- ===== src/Spiutils/Wire.antt =====
-- shared-lib/spiutils/src/protocol/wire.rs: the enums that `wire_enum!` declares. The wire type of
-- all of them is u8.
use tock_on_titan.Common.{
  ℕ, ◌<◌, ◌≡◌, refl, List, [], ◌∷◌, Option, none, some, ◌==◌, if◌then◌else◌, arith, All, subst, ◌↔◌,
}
use Prim.Native.String.{String}
use text.Mathlib.Text.{◌==◌ as str_eq}
use tock_on_titan.Spiutils.Io.{Reader, Writer, ◌>>=◌, in_range, read_u8, write_u8}
use tock_on_titan.Spiutils.Io.Laws.{
  Reads, Reads->>=, Reads-u8, Reads-in_range, RoundTrip, Writes-u8,
}

-- What the macro generates for an enum: the arms of its matches on a wire value and on a name,
-- `$value => Some($variant)` and `stringify!($variant) => Some($variant)`, in order; the cast to the
-- wire type; and the match on a variant for its name.
pub record WireEnum (E : Type 0) : Type 0 where
  pub arms : List (ℕ × String × E)
  pub to_wire_value : E → ℕ
  pub name : E → String

-- A `match` on a wire value and on a name: the first arm that fits, and `_ => None`.
abbrev pub match_value : {E : Type 0} → ℕ → List (ℕ × String × E) → Option E
match_value wire [] = none
match_value wire ((value, text, x) ∷ arms) = if wire == value then some x else match_value wire arms

abbrev pub match_name : {E : Type 0} → String → List (ℕ × String × E) → Option E
match_name name [] = none
match_name name ((value, text, x) ∷ arms) =
    if str_eq name text then some x else match_name name arms

module _ {E : Type 0} (e : WireEnum E) where
  abbrev pub from_wire_value : ℕ → Option E
  from_wire_value wire = match_value wire e.arms

  abbrev pub from_name : String → Option E
  from_name text = match_name text e.arms

  -- `FromStr::from_str`: `WireEnumFromStrError` is `none`.
  abbrev pub from_str : String → Option E
  from_str text = from_name text

  -- `FromWire for E` and `ToWire for E`.
  unfoldable pub enum_from_wire : Reader E
  enum_from_wire = do wire ← read_u8; in_range (from_wire_value wire)

  unfoldable pub enum_to_wire : E → Writer
  enum_to_wire x = write_u8 (e.to_wire_value x)

-- An arm has the wire value and the name of its variant.
abbrev pub Agrees : {E : Type 0} → WireEnum E → ℕ × String × E → Type 0
Agrees e (value, text, x) = (e.to_wire_value x ≡ value) × (e.name x ≡ text)

-- The identities that wire.rs asks of every wire enum, with what the macro makes of one line
-- `$variant = $value` in several places.
pub record IsWireEnum {E : Type 0} (e : WireEnum E) : Type 0 where
  pub from_value : (x : E) → from_wire_value e (e.to_wire_value x) ≡ some x
  pub from_own_name : (x : E) → from_name e (e.name x) ≡ some x
  pub value_is_byte : (x : E) → e.to_wire_value x < 256
  pub arms_agree : All (Agrees e) e.arms

match_value_sound :
    {E : Type 0} (e : WireEnum E) (arms : List (ℕ × String × E)) (wire : ℕ) (x : E)
    → All (Agrees e) arms
    → match_value wire arms ≡ some x
    → e.to_wire_value x ≡ wire
match_value_sound e [] wire x agree h = ground arith
match_value_sound e ((value, text, y) ∷ arms) wire x (p, agree) h =
    ground (arith, p.0, match_value_sound e arms wire x agree)

module _ {E : Type 0} {e : WireEnum E} (law : IsWireEnum e) where
  -- A wire value parses as a variant exactly when the variant is written as that value.
  pub parses_iff :
      (wire : ℕ) (x : E) → (from_wire_value e wire ≡ some x) ↔ (e.to_wire_value x ≡ wire)
  parses_iff wire x = (
    match_value_sound e e.arms wire x law.arms_agree,
    λ p. subst (λ w. from_wire_value e w ≡ some x) p (law.from_value x),
  )

  pub enum-Reads : (x : E) → Reads (enum_from_wire e) (e.to_wire_value x ∷ []) x
  unfolding enum_from_wire
  enum-Reads x = Reads->>= _ (Reads-u8 _) (Reads-in_range (law.from_value x))

  pub enum-RoundTrip : (x : E) → RoundTrip (enum_to_wire e x) (enum_from_wire e) x 1
  unfolding enum_to_wire
  enum-RoundTrip x = record {
    bytes = e.to_wire_value x ∷ [];
    written = Writes-u8 _;
    read_back = enum-Reads x;
    size = refl;
  }
