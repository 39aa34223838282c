-- ===== src/Hooks.antt =====
-- The order of hooks in crates/requests/src/hooks.rs.
mod Order
mod Examples
use requests_native.Prelude.{
  ℕ, zero, suc, ◌+◌, ◌-◌, ◌*◌, ◌/◌, ◌%◌, ◌^◌, ◌≤◌, ◌<◌, min, ◌≡◌, refl, sym, ap, ap₂, ◌∙◌, ◌≢◌, ◌↔◌,
  ◌⊎◌, inl, inr, Bool, true, false, not, ◌&&◌, ◌||◌, Option, none, some, List, [], ◌∷◌, ◌++◌, map,
  append_assoc, append-nil, arith, ltb, leb, ◌==◌, if◌then◌else◌, ltb→lt, lt→ltb, leb→le, le→leb,
  ==_iff, Bool-cases, Option-cases, length, take, drop, length-append, take-append-drop, any, all,
  All, All-append, Bytes, IsByte, codes, bytes_eq, bytes_eq_iff, contains_byte, is_ascii_digit,
  is_ascii_uppercase, is_ascii_lowercase, is_ascii_alphanumeric, is_ascii_hexdigit,
  to_ascii_uppercase, to_ascii_lowercase, Result, ok, err, ◌>>=◌, ok_or,
}

-- A `HookId` and a `HookValueId` are numbers.
pub record HookCall : Type 0 where
  pub hook : ℕ
  pub value : ℕ

pub record HookRegistry : Type 0 where
  pub next_hook : ℕ
  pub current_value : ℕ

pub new : ℕ → HookRegistry
new initial_value = record { next_hook = 0; current_value = initial_value }

-- `none` is the overflow of a `usize` of 64 bits, which panics where it is checked.
unfoldable pub next_call : HookRegistry → Option (HookCall × HookRegistry)
next_call r =
    if ltb (r.next_hook + 1) (2 ^ 64)
    then some (
      record { hook = r.next_hook; value = r.current_value },
      record r { next_hook = r.next_hook + 1 },
    )
    else none

pub replace : HookRegistry → ℕ → HookRegistry
replace r value = record r { current_value = value }
