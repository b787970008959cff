-- ===== src/Utils/Builder.antt =====
-- server/src/utils.c, `string_builder_t`: a growing buffer, and `sb_append`.
pub mod Laws
use mathlib.Core.Option
use ott_server.Base.{
  Bool, Option, [], if◌then◌else◌, length, ltb, none, some, suc, take, zero, ℕ, ◌%◌, ◌*◌, ◌++◌, ◌+◌,
  ◌-◌, ◌==◌, ◌>>=◌, ◌^◌,
}
use ott_server.Cstr.{Bytes, int_max}

-- `text` is what stands before the NUL, so `length` is its length. `allocations` counts the calls
-- of malloc and realloc made so far.
pub record StringBuilder : Type 0 where
  pub text : Bytes
  pub capacity : ℕ
  pub allocations : ℕ

abbrev pub size_mod : ℕ
size_mod = 2 ^ 64

-- `while (new_cap < required) new_cap *= 2;` in size_t; `none` when the fuel runs out.
unfoldable pub grow : ℕ → ℕ → ℕ → Option ℕ
grow zero size required = none
grow (suc f) size required =
    let rest = grow f (size * 2 % size_mod) required in
    if ltb size required then rest else some size

-- A capacity of at least 1 meets any `required` up to 2 ^ 63 within 64 rounds.
abbrev pub grow_fuel : ℕ
grow_fuel = 65

-- `malloc n size` says whether the n-th request, for `size` bytes, is granted.
module _ (malloc : ℕ → ℕ → Bool) where
  unfoldable pub sb_init : ℕ → ℕ → Option StringBuilder
  sb_init calls initial =
      let capacity = if initial == 0 then 256 else initial in
      if malloc calls capacity
      then some (record { text = []; capacity = capacity; allocations = calls + 1 })
      else none

  -- The buffer with room for `required` bytes.
  unfoldable pub sb_reserve : StringBuilder → ℕ → Option StringBuilder
  sb_reserve sb required =
      if ltb sb.capacity required
      then (do
        size ← grow grow_fuel sb.capacity required
        if malloc sb.allocations size
            then some (record sb { capacity = size; allocations = sb.allocations + 1 })
            else none)
      else some sb

  -- `piece` is what the format and its arguments print. vsnprintf fails beyond INT_MAX bytes. A
  -- failure leaves the builder as it was.
  unfoldable pub sb_append : StringBuilder → Bytes → Option StringBuilder
  sb_append sb piece = if ltb int_max (length piece) then none else (do
    r ← sb_reserve sb ((length sb.text + length piece + 1) % size_mod)
    some (record r { text = r.text ++ take (r.capacity - length r.text - 1) piece }))
