-- ===== src/Capture/Pcapng/Interface.antt =====
-- capture/pcapng.go: what an interface says about its packets.
use a2kit.Common.{
  ℕ, zero, suc, ◌+◌, ◌-◌, ◌*◌, ◌/◌, ◌%◌, ◌^◌, ◌&&◌, List, [], ◌∷◌, Option, none, some, ltb, leb,
  ◌==◌, if◌then◌else◌, length, drop, byte_at,
}
use a2kit.Capture.Order.{Order, u16, u32, u64}
use a2kit.Capture.Packet.{
  Time, unix, Error, short_block, option_end, bad_resolution, Result, ok, err,
}

-- `offset` is the word of an int64.
pub record Iface : Type 0 where
  pub link_type : ℕ
  pub snap_len : ℕ
  pub ticks : ℕ
  pub offset : ℕ

-- resolution, `none` for not ok
unfoldable pub resolution : ℕ → Option ℕ
resolution v =
    if leb 128 v
    then (if ltb 63 (v % 128) then none else some (2 ^ (v % 128)))
    else if ltb 19 v
    then none
    else some (10 ^ v)

-- time, whose 128-bit product and quotient are exact
unfoldable pub time : Iface → ℕ → ℕ → Time
time i hi lo =
    let t = hi * 2 ^ 32 + lo in unix (t / i.ticks + i.offset) (t % i.ticks * 1000000000 / i.ticks)

-- What the loop over the options does at a byte: the bytes to pass over, the end, or an error
pub data Step : Type 0 where
  pass : ℕ → Iface → Step
  stop : Step
  fails : Error → Step

resolved : ℕ → ℕ → Option ℕ → Iface → Step
resolved v skip none i = fails (bad_resolution v)
resolved v skip (some ticks) i = pass skip (record i { ticks = ticks })

-- A round of the loop, on options of four bytes at least
option_at : Order → List ℕ → Iface → Step
unfolding resolved resolution
option_at o opts i =
    let code = u16 o opts in
    let size = u16 o (drop 2 opts) in
    let skip = 4 + (size + 3) / 4 * 4 - 1 in
    if code == 0
    then stop
    else if ltb (length opts) (4 + size)
    then fails option_end
    else if code == 9 && size == 1
    then resolved (byte_at opts 4) skip (resolution (byte_at opts 4)) i
    else if code == 14 && size == 8
    then pass skip (record i { offset = u64 o (drop 4 opts) })
    else pass skip i

at_byte : Order → ℕ → List ℕ → Iface → Step
unfolding option_at
at_byte o (suc skip) opts i = pass skip i
at_byte o zero opts i = if ltb (length opts) 4 then stop else option_at o opts i

-- The loop over the options, byte by byte: `skip` is how many bytes of the option before are left.
options : Order → ℕ → List ℕ → Iface → Result Iface
unfolding at_byte
options o skip [] i = ok i
options o skip (b ∷ opts) i = elim (at_byte o skip (b ∷ opts) i) [
  | pass skip' i' ↦ options o skip' opts i'
  | stop ↦ ok i
  | fails e ↦ err e
]

unfoldable pub iface : Order → List ℕ → Result Iface
unfolding options
iface o b =
    if ltb (length b) 8
    then err short_block
    else options o 0 (drop 8 b)
        (record { link_type = u16 o b; snap_len = u32 o (drop 4 b); ticks = 1000000; offset = 0 })
